-- ===== src/Server/Queue.antt =====
-- Which values of a client `Server::cycle` of macdetectd/src/Server.cpp queues.
use macdetect.Base.{
  ℕ, Bool, true, false, List, [], ◌∷◌, ◌++◌, map, select, ◌≡◌, ◌==◌, refl, sym, ap, ◌∙◌, Bool-cases,
  inl, inr, arith,
}
use macdetect.Value.{Value}
use macdetect.Server.{Server, QueuedValue, Clients, Received, poll, receive_all, cycle, flat}
use macdetect.Server.Received.{got, nothing}
use macdetect.Server.Connections.{connections}
use macdetect.Server.Delivery.{Received-cases}

-- The values that come from a client.
abbrev pub of_client : ℕ → List QueuedValue → List QueuedValue
of_client h qs = select (λ q. q.served == h) qs

-- The clients of a round: those that were connected, and those that are accepted in it.
abbrev pub clients_of : Clients → Server → List (ℕ × ℕ)
clients_of env s = s.served ++ flat (map (λ v. poll (env.answer v) v) s.servings)

module _ (received : ℕ → Received) (h : ℕ) where
  receive_all-absent :
      (cs : List (ℕ × ℕ)) → connections h cs ≡ 0 → of_client h (receive_all received cs).0 ≡ []
  unfolding receive_all connections
  receive_all-absent [] none_left = refl
  receive_all-absent ((c, id) ∷ cs) none_left =
      let other : c == h ≡ false = ground (arith, none_left) in
      let ih = receive_all-absent cs (ground (arith, none_left)) in
      elim (Received-cases (received c)) [
        | inl (w, r) ↦ rw (r, receive_all, other) ih
        | inr (inl r) ↦ rw (r, receive_all) ih
        | inr (inr r) ↦ rw (r, receive_all) ih
      ]

  receive_all-silent :
      (b : Bool) (cs : List (ℕ × ℕ))
      → received h ≡ nothing b
      → of_client h (receive_all received cs).0 ≡ []
  unfolding receive_all
  receive_all-silent b [] silent = refl
  receive_all-silent b ((c, id) ∷ cs) silent =
      let ih = receive_all-silent b cs silent in
      elim (Received-cases (received c)) [
        | inr (inl r) ↦ rw (r, receive_all) ih
        | inr (inr r) ↦ rw (r, receive_all) ih
        | inl (w, r) ↦ elim (Bool-cases (c == h)) [
          | inr other ↦ rw (r, receive_all, other) ih
          | inl same ↦
              let e : c ≡ h = ground (arith, same) in
              let clash : got w ≡ nothing b = sym r ∙ ap received e ∙ silent in cc
        ]
      ]

  receive_all-once :
      (v : Value) (cs : List (ℕ × ℕ))
      → received h ≡ got v
      → connections h cs ≡ 1
      → (id : ℕ) × (of_client h (receive_all received cs).0
          ≡ record { value = v; served = h; serving_id = id } ∷ [])
  unfolding receive_all connections
  receive_all-once v [] given one = absurd (omega (arith, one))
  receive_all-once v ((c, id) ∷ cs) given one = elim (Bool-cases (c == h)) [
    | inl same ↦
        let e : c ≡ h = ground (arith, same) in
        let here : received c ≡ got v = ap received e ∙ given in
        let rest = receive_all-absent cs (ground (arith, one, same)) in
        (id, rw (here, receive_all, same, rest, e))
    | inr other ↦
        let (id', ih) = receive_all-once v cs given (ground (arith, one, other)) in
        (
          id',
          elim (Received-cases (received c)) [
            | inl (w, r) ↦ rw (r, receive_all, other) ih
            | inr (inl r) ↦ rw (r, receive_all) ih
            | inr (inr r) ↦ rw (r, receive_all) ih
          ],
        )
  ]

-- A round of a running server whose queue is empty queues the value that a client sent once, and
-- nothing of a client that sent nothing.
pub cycle_queues :
    (env : Clients) (s : Server) (h : ℕ) (v : Value)
    → s.run ≡ true
    → s.value_queue ≡ []
    → env.received h ≡ got v
    → connections h (clients_of env s) ≡ 1
    → (id : ℕ) × (of_client h (cycle env s).0.value_queue
        ≡ record { value = v; served = h; serving_id = id } ∷ [])
unfolding cycle
cycle_queues env s h v up empty given once =
    let (id, e) = receive_all-once env.received h v (clients_of env s) given once in
    (id, rw (up, empty) e)

pub cycle_silent :
    (env : Clients) (s : Server) (h : ℕ) (b : Bool)
    → s.run ≡ true
    → s.value_queue ≡ []
    → env.received h ≡ nothing b
    → of_client h (cycle env s).0.value_queue ≡ []
unfolding cycle
cycle_silent env s h b up empty silent =
    rw (up, empty) (receive_all-silent env.received h b (clients_of env s) silent)
