-- ===== src/Daemon/Owned.antt =====
-- The invariant of the daemon's state in macdetectd/src/Daemon.cpp, from round to round.
use macdetect.Base.{
  ℕ, ◌<◌, true, List, [], ◌∷◌, Option, none, some, ◌≡◌, refl, sym, ap, ◌∙◌, inl, inr, Bool-cases,
  Option-cases, arith, All,
}
use mathlib.Core.Path.{subst}
use macdetect.Doubles.{Doubles}
use macdetect.Server.{
  Server, QueuedValue, Clients, queued_values, take_removed, cycle as server_cycle,
}
use macdetect.Server.Connections.{connections, cycle_conserves}
use macdetect.Server.Delivery.{IsFrom, cycle-IsFrom}
use macdetect.Network.Cycle.{cycle as network_cycle}
use macdetect.Daemon.Requests.{handle_values}
use macdetect.Daemon.Notices.{handle_events}
use macdetect.Daemon.Owners.{AllOwned, AllKnown, drop_streams-AllOwned}
use macdetect.Daemon.Keeping.{
  IsKept, IsKeptIfAny, handle_values-IsKept, handle_events-IsKept, keep_alive-IsKept,
}
use macdetect.Daemon.Cycle.{Round, Turn, drop_streams, keep_alive, serve_round, cycle}
use macdetect.Daemon.{Stream, Daemon}

-- What was a stream of a connected client is one of a client that still is, or that is gone.
cycle-AllKnown :
    (env : Clients) (s : Server) (streams : List Stream)
    → s.run ≡ true
    → AllOwned (λ h. connections h s.served) streams
    → AllKnown
        (λ h. connections h (server_cycle env s).0.served)
        (server_cycle env s).0.removed
        streams
cycle-AllKnown env s [] on h = tt
cycle-AllKnown env s (t ∷ ts) on h =
    (omega (arith, cycle_conserves env s t.served on, h.0), cycle-AllKnown env s ts on h.1)

waiting_connected :
    (env : Clients) (clients : List (ℕ × ℕ)) (qs : List QueuedValue)
    → All (IsFrom env.received clients) qs
    → All (λ q. 0 < connections q.served clients) qs
waiting_connected env clients [] h = tt
waiting_connected env clients (q ∷ qs) h = (h.0.1, waiting_connected env clients qs h.1)

pub server_cycle_up : (env : Clients) (s : Server) → s.run ≡ true → (server_cycle env s).2 ≡ true
unfolding server_cycle
server_cycle_up env s on = rw on

module _ {D : Type 0} where
  abbrev pub connections_of : Daemon D → ℕ → ℕ
  connections_of d h = connections h d.server.served

  -- Each stream is that of a client that is connected, and no value of a client waits.
  pub record IsOwned (d : Daemon D) : Type 0 where
    pub owned : AllOwned (connections_of d) d.streams
    pub answered : d.server.value_queue ≡ []

  abbrev pub IsOwnedIfAny : Option (Turn D) → Type 0
  IsOwnedIfAny none = Unit {0}
  IsOwnedIfAny (some t) = IsOwned t.daemon

  IsKept-IsOwned :
      (s : Server) (f : Daemon D)
      → s.value_queue ≡ []
      → IsKept (λ h. connections h s.served) s f
      → IsOwned f
  IsKept-IsOwned s f empty h = record {
    owned = subst (λ (t : Server). AllOwned (λ h. connections h t.served) f.streams) (sym h.0) h.1;
    answered = ap (λ (t : Server). t.value_queue) h.0 ∙ empty;
  }

  -- Behind the round of the server.
  serve_round-IsOwned :
      (dbl : Doubles D) (env : Round D) (d : Daemon D)
      → AllKnown (connections_of d) d.server.removed d.streams
      → All (λ q. 0 < connections_of d q.served) d.server.value_queue
      → IsOwnedIfAny (serve_round dbl env d)
  unfolding serve_round take_removed queued_values
  serve_round-IsOwned dbl env d known waiting =
      let server = record d.server { removed = []; value_queue = [] } in
      let dropped = record d {
        server = server;
        streams = drop_streams d.streams d.server.removed;
      } in
      let kept =
        handle_values-IsKept (connections_of d) server dbl dropped d.server.value_queue waiting
          (refl, drop_streams-AllOwned (connections_of d) d.server.removed d.streams known) in
      elim (Option-cases (handle_values dbl dropped d.server.value_queue)) [
        | inl bad ↦ rw (serve_round, bad) tt
        | inr (r, good) ↦
            let fine = subst (IsKeptIfAny (connections_of d) server) good kept in
            let noticed = (handle_events env.system r.0 r.0.network.events).0 in
            let told =
              handle_events-IsKept (connections_of d) server env.system r.0 r.0.network.events
                fine in
            let last =
              keep_alive-IsKept (connections_of d) server dbl env.keep_alive_time noticed told in
            rw (serve_round, good)
              (IsKept-IsOwned server (keep_alive dbl env.keep_alive_time noticed).0 refl last)
      ]

  -- Behind the round of the network, when the server runs.
  cycle_running :
      (dbl : Doubles D) (env : Round D) (d : Daemon D)
      → (network_cycle dbl env.system d.network).1 ≡ true
      → d.server.run ≡ true
      → IsOwned d
      → IsOwnedIfAny (cycle dbl env d)
  unfolding cycle
  cycle_running dbl env d goes up h =
      let server = (server_cycle env.clients d.server).0 in
      let here = record d {
        network = (network_cycle dbl env.system d.network).0;
        server = server;
      } in
      let round =
        serve_round-IsOwned dbl env here (cycle-AllKnown env.clients d.server d.streams up h.owned)
          (waiting_connected env.clients server.served server.value_queue
            (cycle-IsFrom env.clients d.server up h.answered)) in
      let running = server_cycle_up env.clients d.server up in
      elim (Option-cases (serve_round dbl env here)) [
        | inl bad ↦ rw (goes, running, bad) tt
        | inr (t, good) ↦
            let fine = subst IsOwnedIfAny good round in
            rw (goes, running, good) (record { owned = fine.owned; answered = fine.answered })
      ]

  cycle-IsOwnedIfAny :
      (dbl : Doubles D) (env : Round D) (d : Daemon D) → IsOwned d → IsOwnedIfAny (cycle dbl env d)
  unfolding cycle server_cycle
  cycle-IsOwnedIfAny dbl env d h = elim (Bool-cases (network_cycle dbl env.system d.network).1) [
    | inr stops ↦ rw stops (record { owned = h.owned; answered = h.answered })
    | inl goes ↦ elim (Bool-cases d.server.run) [
      | inr down ↦ rw (goes, down) (record { owned = h.owned; answered = h.answered })
      | inl up ↦ cycle_running dbl env d goes up h
    ]
  ]

  -- A round of the daemon keeps its streams apart from the clients that are gone: if each stream is
  -- that of a connected client and no value waits, this holds behind the round again, whatever the
  -- clients, the network and the system do.
  pub cycle-IsOwned :
      (dbl : Doubles D) (env : Round D) (d : Daemon D) (t : Turn D)
      → cycle dbl env d ≡ some t
      → IsOwned d
      → IsOwned t.daemon
  cycle-IsOwned dbl env d t e h = subst IsOwnedIfAny e (cycle-IsOwnedIfAny dbl env d h)
