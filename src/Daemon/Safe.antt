-- ===== src/Daemon/Safe.antt =====
-- The invariant of the whole daemon in macdetectd/src/Daemon.cpp: that of its clients and their
-- streams, of its serving sockets, of the devices and of the seen addresses.
use macdetect.Base.{
  ℕ, List, [], Option, none, some, ◌≡◌, ap, ◌∙◌, Bool-cases, Option-cases, inl, inr,
}
use mathlib.Core.Path.{subst}
use macdetect.Doubles.{Doubles}
use macdetect.Network.Cycle.{cycle as network_cycle, shutdown as network_shutdown}
use macdetect.Network.Tracking.{Inv}
use macdetect.Network.Follow.{Clock, cycle-Inv}
use macdetect.Network.Known.{DistinctNames}
use macdetect.Network.Rounds.{cycle-DistinctNames}
use macdetect.Network.{Network}
use macdetect.Server.{
  Server, take_removed, queued_values, cycle as server_cycle, shutdown as server_shutdown,
}
use macdetect.Server.Ids.{Distinct}
use macdetect.Server.Apart.{cycle-Distinct}
use macdetect.Daemon.Requests.{handle_values}
use macdetect.Daemon.Notices.{handle_events}
use macdetect.Daemon.Cycle.{Round, Turn, drop_streams, keep_alive, serve_round, cycle, shutdown}
use macdetect.Daemon.Replies.{IsReply, handle_values-IsReply, keep_alive-IsSame}
use macdetect.Daemon.Owned.{IsOwned, cycle-IsOwned}
use macdetect.Daemon.Following.{handle_events_rest}
use macdetect.Value.{Value}
use macdetect.Daemon.{Daemon}

module _ {D : Type 0} (dbl : Doubles D) where
  -- What the monitor and the server keep in a round of their own.
  pub record IsSound (d : Daemon D) : Type 0 where
    -- No two serving sockets have one number, nor one device and port.
    pub servings : Distinct d.server.servings
    -- No two known devices have one name.
    pub devices : DistinctNames d.network.devices
    -- The seen addresses are in order.
    pub seen : Inv dbl d.network

  -- Also, each stream is that of a connected client, and no value of a client waits.
  pub record IsSafe (d : Daemon D) : Type 0 where
    pub sound : IsSound d
    pub streams : IsOwned d

  -- The same serving sockets, devices and seen addresses.
  abbrev pub IsCarried : Daemon D → Daemon D → Type 0
  IsCarried d e =
      (e.server.servings ≡ d.server.servings)
      × (e.network.devices ≡ d.network.devices)
      × (e.network.macs_seen ≡ d.network.macs_seen)

  Carried-IsSound : (d e : Daemon D) → IsCarried d e → IsSound d → IsSound e
  Carried-IsSound d e (servings, devices, seen) h = record {
    servings = rw servings h.servings;
    devices = rw devices h.devices;
    seen = record {
      distinct = rw seen h.seen.distinct;
      real = rw seen h.seen.real;
      timed = rw seen h.seen.timed;
    };
  }

  abbrev IsSoundIfAny : Option (Turn D) → Type 0
  IsSoundIfAny none = Unit {0}
  IsSoundIfAny (some t) = IsSound t.daemon

  -- Behind the answers to the requests.
  pub notices-IsCarried :
      (env : Round D) (d : Daemon D) (r : Daemon D × List (ℕ × Value))
      → IsReply d (some r)
      → IsCarried d
          (keep_alive dbl env.keep_alive_time (handle_events env.system r.0 r.0.network.events).0).0
  notices-IsCarried env d r (same, _) =
      let noticed = (handle_events env.system r.0 r.0.network.events).0 in
      let rest = handle_events_rest env.system 0 [] r.0 r.0.network.events in
      let alive = (keep_alive-IsSame dbl env.keep_alive_time noticed).0 in
      let server = alive.0 ∙ rest.0 ∙ same.0 in
      (
        ap (λ s. Server.servings s) server,
        alive.3 ∙ ap (λ n. Network.devices n) rest.1 ∙ same.3,
        alive.1 ∙ ap (λ n. Network.macs_seen n) rest.1 ∙ same.1,
      )

  serve_round-IsSound :
      (env : Round D) (d : Daemon D) → IsSound d → IsSoundIfAny (serve_round dbl env d)
  unfolding serve_round take_removed queued_values
  serve_round-IsSound env d h =
      let server = record d.server { removed = []; value_queue = [] } in
      let dropped = record d {
        server = server;
        streams = drop_streams d.streams d.server.removed;
      } in
      let replies = handle_values-IsReply dbl dropped d.server.value_queue in
      elim (Option-cases (handle_values dbl dropped d.server.value_queue)) [
        | inl bad ↦ rw (serve_round, bad) tt
        | inr (r, good) ↦
            let carried = notices-IsCarried env dropped r (subst (IsReply dropped) good replies) in
            let last =
              (keep_alive dbl env.keep_alive_time
                (handle_events env.system r.0 r.0.network.events).0).0 in
            rw (serve_round, good)
              (Carried-IsSound dropped last carried
                (record { servings = h.servings; devices = h.devices; seen = h.seen }))
      ]

  cycle-IsSoundIfAny :
      (env : Round D) (d : Daemon D)
      → Clock dbl env.system
      → IsSound d
      → IsSoundIfAny (cycle dbl env d)
  unfolding cycle
  cycle-IsSoundIfAny env d clock h =
      let network = (network_cycle dbl env.system d.network).0 in
      let server = (server_cycle env.clients d.server).0 in
      let here = record d { network = network; server = server } in
      let devices = cycle-DistinctNames dbl env.system d.network h.devices in
      let seen = cycle-Inv dbl env.system d.network clock h.seen in
      let servings = cycle-Distinct env.clients d.server h.servings in
      elim (Bool-cases (network_cycle dbl env.system d.network).1) [
        | inr stops ↦ rw stops (record { servings = h.servings; devices = devices; seen = seen })
        | inl goes ↦ elim (Bool-cases (server_cycle env.clients d.server).2) [
          | inr down ↦
              rw (goes, down) (record { servings = servings; devices = devices; seen = seen })
          | inl up ↦
              let round =
                serve_round-IsSound env here
                  (record { servings = servings; devices = devices; seen = seen }) in
              elim (Option-cases (serve_round dbl env here)) [
                | inl bad ↦ rw (goes, up, bad) tt
                | inr (t, good) ↦
                    let fine = subst IsSoundIfAny good round in
                    rw (goes, up, good)
                      (record {
                        servings = fine.servings;
                        devices = fine.devices;
                        seen = fine.seen;
                      })
              ]
        ]
      ]

  -- A round of the daemon that returns keeps the invariant of the whole daemon.
  pub cycle-IsSafe :
      (env : Round D) (d : Daemon D) (t : Turn D)
      → cycle dbl env d ≡ some t
      → Clock dbl env.system
      → IsSafe d
      → IsSafe t.daemon
  cycle-IsSafe env d t e clock h = record {
    sound = subst IsSoundIfAny e (cycle-IsSoundIfAny env d clock h.sound);
    streams = cycle-IsOwned dbl env d t e h.streams;
  }

  pub shutdown-IsSafe : (d : Daemon D) → IsSafe d → IsSafe (shutdown d)
  unfolding shutdown server_shutdown network_shutdown
  shutdown-IsSafe d h = record {
    sound = record {
      servings = h.sound.servings;
      devices = h.sound.devices;
      seen = record {
        distinct = h.sound.seen.distinct;
        real = h.sound.seen.real;
        timed = h.sound.seen.timed;
      };
    };
    streams = record { owned = h.streams.owned; answered = h.streams.answered };
  }
