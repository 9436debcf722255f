-- ===== src/Daemon/Knows.antt =====
-- A client of macdetectd/src/Daemon.cpp that follows a device knows the addresses on it.
use macdetect.Base.{
  ℕ, true, List, [], ◌++◌, Option, none, some, Text, ◌≡◌, refl, sym, ap, ◌∙◌, Bool-cases,
  Option-cases, inl, inr, All,
}
use mathlib.Core.Path.{subst}
use macdetect.Doubles.{Doubles}
use macdetect.Network.Cycle.{cycle as network_cycle}
use macdetect.Network.{Network}
use macdetect.Network.Replay.{Pair, pairs, replay}
use macdetect.Network.Tracking.{Inv}
use macdetect.Network.Follow.{Clock, cycle-Inv, replay-cycle}
use macdetect.Server.{Server, Sent, take_removed, queued_values, cycle as server_cycle}
use macdetect.Server.Connections.{connections}
use macdetect.Daemon.Streams.{stream_enabled}
use macdetect.Daemon.Requests.{handle_values}
use macdetect.Daemon.Notices.{handle_events}
use macdetect.Daemon.Cycle.{Round, Turn, drop_streams, keep_alive, serve_round, cycle}
use macdetect.Daemon.Fold.{read_all-append}
use macdetect.Daemon.View.{track, track_all, macs_on}
use macdetect.Daemon.Delivery.{IsSilent, track_all-IsSilent}
use macdetect.Daemon.Following.{track_all-handle_events, handle_events_rest}
use macdetect.Daemon.Replies.{
  IsReply, handle_values-IsReply, keep_alive-IsSame, server_cycle-IsSilent,
}
use macdetect.Daemon.{Daemon}

module _ {D : Type 0} (h : ℕ) (name : Text) where
  -- The client follows the device, and stands among the clients once.
  pub record Follows (d : Daemon D) : Type 0 where
    pub enabled : stream_enabled d.streams h name ≡ true
    pub once : connections h d.server.served ≡ 1

  -- The addresses on the device.
  abbrev pub macs : Daemon D → List Text
  macs d = macs_on name (pairs d.network.macs_seen)

  -- A client that knew the addresses of these pairs knows, from what was sent, those that the events
  -- lead to, and the seen addresses are as they were.
  abbrev IsTold : Daemon D → List Pair → Turn D → Type 0
  IsTold d ps t =
      (track_all h name (macs_on name ps) t.sent ≡ macs_on name (replay ps d.network.events))
      × (t.daemon.network.macs_seen ≡ d.network.macs_seen)

  abbrev IsToldIfAny : Daemon D → List Pair → Option (Turn D) → Type 0
  IsToldIfAny d ps none = Unit {0}
  IsToldIfAny d ps (some t) = Follows t.daemon → IsTold d ps t

  -- Behind the answers to the requests.
  notices-IsTold :
      (dbl : Doubles D) (env : Round D) (d : Daemon D) (r : Daemon D × Sent) (ps : List Pair)
      → IsReply d (some r)
      → let noticed = handle_events env.system r.0 r.0.network.events in
        let last = keep_alive dbl env.keep_alive_time noticed.0 in
        Follows last.0
        → IsTold d ps (record {
          daemon = last.0;
          sent = r.1 ++ (noticed.1 ++ last.1);
          multicast = [];
          success = true;
        })
  notices-IsTold dbl env d r ps reply follows =
      let es = r.0.network.events in
      let noticed = handle_events env.system r.0 es in
      let last = keep_alive dbl env.keep_alive_time noticed.0 in
      let (alive, same_streams, silent) = keep_alive-IsSame dbl env.keep_alive_time noticed.0 in
      let rest = handle_events_rest env.system h name r.0 es in
      let once : connections h r.0.server.served ≡ 1 =
        ap (λ s. connections h (Server.served s)) (sym (alive.0 ∙ rest.0)) ∙ follows.once in
      let on : stream_enabled noticed.0.streams h name ≡ true =
        ap (λ s. stream_enabled s h name) (sym same_streams) ∙ follows.enabled in
      let ms = macs_on name ps in
      (
        read_all-append (track name) h ms r.1 (noticed.1 ++ last.1)
            ∙ ap (λ m. track_all h name m (noticed.1 ++ last.1))
                (track_all-IsSilent h name ms r.1 reply.1)
            ∙ read_all-append (track name) h ms noticed.1 last.1
            ∙ track_all-IsSilent h name (track_all h name ms noticed.1) last.1 silent
            ∙ track_all-handle_events env.system h name r.0 es ps once on
            ∙ ap (λ l. macs_on name (replay ps l)) reply.0.2,
        alive.1 ∙ ap (λ n. Network.macs_seen n) rest.1 ∙ reply.0.1,
      )

  serve_round-IsToldIfAny :
      (dbl : Doubles D) (env : Round D) (d : Daemon D) (ps : List Pair)
      → IsToldIfAny d ps (serve_round dbl env d)
  unfolding serve_round take_removed queued_values
  serve_round-IsToldIfAny dbl env d ps =
      let server = record d.server { removed = []; value_queue = [] } in
      let dropped = record d {
        server = server;
        streams = drop_streams d.streams d.server.removed;
      } in
      let replies = handle_values-IsReply dbl dropped d.server.value_queue in
      elim (Option-cases (handle_values dbl dropped d.server.value_queue)) [
        | inl bad ↦ rw (serve_round, bad) tt
        | inr (r, good) ↦
            let reply = subst (IsReply dropped) good replies in
            rw (serve_round, good)
              (λ (follows : Follows
                  (keep_alive dbl env.keep_alive_time
                    (handle_events env.system r.0 r.0.network.events).0).0).
                notices-IsTold dbl env dropped r ps reply follows)
      ]

  abbrev IsKnownIfAny : Doubles D → Daemon D → Option (Turn D) → Type 0
  IsKnownIfAny dbl d none = Unit {0}
  IsKnownIfAny dbl d (some t) =
      t.success ≡ true
      → Follows t.daemon
      → (track_all h name (macs d) t.sent ≡ macs t.daemon) × Inv dbl t.daemon.network

  -- Behind the rounds of the network and of the server.
  rest-IsKnown :
      (dbl : Doubles D) (env : Round D) (d : Daemon D) (hellos : Sent) (t : Turn D)
      → Inv dbl d.network
      → All IsSilent hellos
      → (ms : List Text) → (ps : List Pair) → ms ≡ macs_on name ps
      → replay ps d.network.events ≡ pairs d.network.macs_seen
      → IsTold d ps t
      → (track_all h name ms (hellos ++ t.sent) ≡ macs t.daemon) × Inv dbl t.daemon.network
  rest-IsKnown dbl env d hellos t v silent ms ps e followed (told, same) = (
    read_all-append (track name) h ms hellos t.sent
        ∙ ap (λ m. track_all h name m t.sent) (track_all-IsSilent h name ms hellos silent ∙ e)
        ∙ told
        ∙ ap (macs_on name) (followed ∙ ap pairs (sym same)),
    record { distinct = rw same v.distinct; real = rw same v.real; timed = rw same v.timed },
  )

  cycle-IsKnownIfAny :
      (dbl : Doubles D) (env : Round D) (d : Daemon D)
      → Clock dbl env.system
      → Inv dbl d.network
      → IsKnownIfAny dbl d (cycle dbl env d)
  unfolding cycle
  cycle-IsKnownIfAny dbl env d clock v =
      let network = (network_cycle dbl env.system d.network).0 in
      let server = (server_cycle env.clients d.server).0 in
      let hellos = (server_cycle env.clients d.server).1 in
      let here = record d { network = network; server = server } in
      elim (Bool-cases (network_cycle dbl env.system d.network).1) [
        | inr stops ↦ rw stops (λ e f. cc)
        | inl goes ↦ elim (Bool-cases (server_cycle env.clients d.server).2) [
          | inr down ↦ rw (goes, down) (λ e f. cc)
          | inl up ↦ elim (Option-cases (serve_round dbl env here)) [
            | inl bad ↦ rw (goes, up, bad) tt
            | inr (t, good) ↦
                let told =
                  subst (IsToldIfAny here (pairs d.network.macs_seen)) good
                    (serve_round-IsToldIfAny dbl env here (pairs d.network.macs_seen)) in
                rw (goes, up, good)
                  (λ (e : t.success ≡ true) (f : Follows t.daemon).
                    rest-IsKnown dbl env here hellos t (cycle-Inv dbl env.system d.network clock v)
                      (server_cycle-IsSilent env.clients d.server) (macs d)
                      (pairs d.network.macs_seen) refl
                      (replay-cycle dbl env.system d.network clock v)
                      (told (record { enabled = f.enabled; once = f.once })))
          ]
        ]
      ]

  -- A client that follows a device at the end of a round of the daemon, and stands among the clients
  -- once, learns from the values of this round how the addresses on the device have changed: if it
  -- knew them before the round, in their order, it knows them after it. The invariant of the seen
  -- addresses holds before the round, and then after it; the clock never shows the time that means
  -- "unknown".
  pub track_all-cycle :
      (dbl : Doubles D) (env : Round D) (d : Daemon D) (t : Turn D)
      → cycle dbl env d ≡ some t
      → t.success ≡ true
      → Clock dbl env.system
      → Inv dbl d.network
      → Follows t.daemon
      → (track_all h name (macs d) t.sent ≡ macs t.daemon) × Inv dbl t.daemon.network
  track_all-cycle dbl env d t e on clock v f =
      subst (IsKnownIfAny dbl d) e (cycle-IsKnownIfAny dbl env d clock v) on f
