-- ===== src/Daemon/Total.antt =====
-- A round of macdetectd/src/Daemon.cpp follows no null pointer if the clients send only requests.
use macdetect.Base.{
  ℕ, true, false, not, List, [], ◌∷◌, none, some, text, str_eq, any, ◌≡◌, refl, sym, ap, ◌∙◌,
  Bool-cases, Option-cases, inl, inr, All, arith,
}
use macdetect.Doubles.{Doubles}
use macdetect.Value.{Value, key}
use macdetect.Network.Cycle.{cycle as network_cycle}
use macdetect.Server.{QueuedValue, Clients, take_removed, queued_values, cycle as server_cycle}
use macdetect.Server.Received.{got}
use macdetect.Server.Delivery.{IsFrom, cycle-IsFrom}
use macdetect.Daemon.Requests.{handle_values}
use macdetect.Daemon.RequestLaws.{is_request, handle_values-fails}
use macdetect.Daemon.Cycle.{Round, Turn, drop_streams, serve_round, cycle}
use macdetect.Daemon.Owned.{server_cycle_up}
use macdetect.Daemon.{Daemon}

-- The values that the clients send are requests.
abbrev pub OnlyRequests : Clients → Type 0
OnlyRequests env =
    (h : ℕ) (v : Value) → env.received h ≡ got v → str_eq (key v) (text "request") ≡ true

queue_requests :
    (env : Clients) (clients : List (ℕ × ℕ)) (qs : List QueuedValue)
    → OnlyRequests env
    → All (IsFrom env.received clients) qs
    → any (λ q. not (is_request q)) qs ≡ false
queue_requests env clients [] only h = refl
queue_requests env clients (q ∷ qs) only h =
    ground (arith, only q.served q.value h.0.0, queue_requests env clients qs only h.1)

module _ {D : Type 0} (dbl : Doubles D) where
  handle_values-returns :
      (d : Daemon D) (qs : List QueuedValue)
      → any (λ q. not (is_request q)) qs ≡ false
      → (r : Daemon D × List (ℕ × Value)) × (handle_values dbl d qs ≡ some r)
  handle_values-returns d qs h = elim (Option-cases (handle_values dbl d qs)) [
    | inr good ↦ good
    | inl bad ↦
        let fails = handle_values-fails dbl d qs in
        let clash : true ≡ false =
          sym (ap (λ o. elim o [ none ↦ true | some _ ↦ false ]) bad) ∙ fails ∙ h in
        cc
  ]

  serve_round-returns :
      (env : Round D) (d : Daemon D)
      → any (λ q. not (is_request q)) d.server.value_queue ≡ false
      → (t : Turn D) × (serve_round dbl env d ≡ some t)
  unfolding serve_round take_removed queued_values
  serve_round-returns env d h =
      let server = record d.server { removed = []; value_queue = [] } in
      let dropped = record d {
        server = server;
        streams = drop_streams d.streams d.server.removed;
      } in
      let (r, good) = handle_values-returns dropped d.server.value_queue h in
      rw (serve_round, good) (_, refl)

  -- Behind the round of the network, when the server runs.
  cycle_running-returns :
      (env : Round D) (d : Daemon D)
      → (network_cycle dbl env.system d.network).1 ≡ true
      → d.server.run ≡ true
      → OnlyRequests env.clients
      → d.server.value_queue ≡ []
      → (t : Turn D) × (cycle dbl env d ≡ some t)
  unfolding cycle
  cycle_running-returns env d goes up only empty =
      let server = (server_cycle env.clients d.server).0 in
      let here = record d {
        network = (network_cycle dbl env.system d.network).0;
        server = server;
      } in
      let requests =
        queue_requests env.clients server.served server.value_queue only
          (cycle-IsFrom env.clients d.server up empty) in
      let running = server_cycle_up env.clients d.server up in
      let (t, good) = serve_round-returns env here requests in rw (goes, running, good) (_, refl)

  -- A round returns if no value waits before it and the clients send only requests in it.
  pub cycle-returns :
      (env : Round D) (d : Daemon D)
      → OnlyRequests env.clients
      → d.server.value_queue ≡ []
      → (t : Turn D) × (cycle dbl env d ≡ some t)
  unfolding cycle server_cycle
  cycle-returns env d only empty = elim (Bool-cases (network_cycle dbl env.system d.network).1) [
    | inr stops ↦ rw stops (_, refl)
    | inl goes ↦ elim (Bool-cases d.server.run) [
      | inr down ↦ rw (goes, down) (_, refl)
      | inl up ↦ cycle_running-returns env d goes up only empty
    ]
  ]
