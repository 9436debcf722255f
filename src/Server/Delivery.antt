-- ===== src/Server/Delivery.antt =====
-- Whose values `Server::cycle` of macdetectd/src/Server.cpp queues.
use macdetect.Base.{
  ℕ, ◌+◌, ◌<◌, ◌≤◌, true, false, List, [], ◌∷◌, ◌++◌, map, ◌≡◌, ◌==◌, refl, sym, ap, ◌∙◌,
  Bool-cases, ◌⊎◌, inl, inr, take_first-cases, arith, All,
}
use macdetect.Value.{Value}
use macdetect.Server.{
  Server, QueuedValue, Clients, Received, poll, receive_all, drop_served, cycle, flat,
}
use macdetect.Server.Received.{got, nothing}
use macdetect.Server.Connections.{
  connections, occurrences, occurrences-append, drop_served_conserves,
}

pub Received-cases :
    (r : Received) → ((v : Value) × (r ≡ got v)) ⊎ ((r ≡ nothing true) ⊎ (r ≡ nothing false))
Received-cases (got v) = inl (v, refl)
Received-cases (nothing true) = inr (inl refl)
Received-cases (nothing false) = inr (inr refl)

-- A client that gave a value has not failed.
receive_all-occurrences :
    (received : ℕ → Received) (h : ℕ) (v : Value)
    → received h ≡ got v
    → (cs : List (ℕ × ℕ)) → occurrences h (receive_all received cs).1 ≡ 0
unfolding receive_all occurrences
receive_all-occurrences received h v given [] = refl
receive_all-occurrences received h v given ((c, id) ∷ cs) =
    let ih = receive_all-occurrences received h v given cs in
    elim (Received-cases (received c)) [
      | inl (w, r) ↦ rw (r, receive_all) ih
      | inr (inr r) ↦ rw (r, receive_all) ih
      | inr (inl r) ↦ elim (Bool-cases (c == h)) [
        | inr other ↦ rw (r, receive_all, other) (omega (arith, ih))
        | inl same ↦
            let e : c ≡ h = ground (arith, same) in
            let clash : got v ≡ nothing true = sym given ∙ ap received (sym e) ∙ r in cc
      ]
    ]

-- The value of a client that is connected.
abbrev pub IsFrom : (ℕ → Received) → List (ℕ × ℕ) → QueuedValue → Type 0
IsFrom received clients q = (received q.served ≡ got q.value) × (0 < connections q.served clients)

IsFrom-cons :
    (received : ℕ → Received) (c : ℕ × ℕ) (cs : List (ℕ × ℕ)) (qs : List QueuedValue)
    → All (IsFrom received cs) qs
    → All (IsFrom received (c ∷ cs)) qs
unfolding connections
IsFrom-cons received c cs [] h = tt
IsFrom-cons received (c, id) cs (q ∷ qs) h =
    ((h.0.0, omega (arith, h.0.1)), IsFrom-cons received (c, id) cs qs h.1)

receive_all-IsFrom :
    (received : ℕ → Received) (cs : List (ℕ × ℕ))
    → All (IsFrom received cs) (receive_all received cs).0
unfolding receive_all
receive_all-IsFrom received [] = tt
receive_all-IsFrom received ((c, id) ∷ cs) =
    let ih =
      IsFrom-cons received (c, id) cs (receive_all received cs).0
        (receive_all-IsFrom received cs) in
    elim (Received-cases (received c)) [
      | inl (w, r) ↦ rw (r, receive_all) ((r, unfold connections in ground arith), ih)
      | inr (inl r) ↦ rw (r, receive_all) ih
      | inr (inr r) ↦ rw (r, receive_all) ih
    ]

-- Only clients that failed are put among the removed ones.
drop_served-occurrences :
    (h : ℕ) (served : List (ℕ × ℕ)) (removed failed : List ℕ)
    → occurrences h (drop_served served removed failed).1
      ≤ occurrences h removed + occurrences h failed
unfolding drop_served occurrences
drop_served-occurrences h served removed [] = omega arith
drop_served-occurrences h served removed (c ∷ cs) =
    elim (take_first-cases (λ (d : ℕ × ℕ). d.0 == c) served) [
      | inl (e, other) ↦
          let ih = drop_served-occurrences h served removed cs in
          rw (e, drop_served) (omega (arith, ih))
      | inr s ↦
          let ih = drop_served-occurrences h (s.before ++ s.behind) (removed ++ (c ∷ [])) cs in
          let more = occurrences-append h removed (c ∷ []) in
          rw (s.taken, drop_served) (omega (arith, ih, more))
    ]

-- The clients of values are not dropped.
IsFrom-kept :
    (received : ℕ → Received) (clients : List (ℕ × ℕ)) (removed : List ℕ) (qs : List QueuedValue)
    → All (IsFrom received clients) qs
    → All (IsFrom received (drop_served clients removed (receive_all received clients).1).0) qs
IsFrom-kept received clients removed [] h = tt
IsFrom-kept received clients removed (q ∷ qs) h =
    let failed = (receive_all received clients).1 in
    let well = receive_all-occurrences received q.served q.value h.0.0 clients in
    let few = drop_served-occurrences q.served clients removed failed in
    let all = drop_served_conserves q.served clients removed failed in
    ((h.0.0, omega (arith, well, few, all, h.0.1)), IsFrom-kept received clients removed qs h.1)

-- Behind a round of a running server, before which no value waited, each waiting value is the one
-- that its client gave, and this client is among the clients.
pub cycle-IsFrom :
    (env : Clients) (s : Server)
    → s.run ≡ true
    → s.value_queue ≡ []
    → All (IsFrom env.received (cycle env s).0.served) (cycle env s).0.value_queue
unfolding cycle
cycle-IsFrom env s on empty =
    let clients = s.served ++ flat (map (λ v. poll (env.answer v) v) s.servings) in
    rw (on, empty)
      (IsFrom-kept env.received clients s.removed (receive_all env.received clients).0
        (receive_all-IsFrom env.received clients))
