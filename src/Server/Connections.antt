-- ===== src/Server/Connections.antt =====
-- The clients of `Server::cycle` in macdetectd/src/Server.cpp.
use macdetect.Base.{
  ℕ, ◌+◌, true, List, [], ◌∷◌, ◌++◌, map, ◌≡◌, ◌==◌, refl, ap, inl, inr, take_first-cases,
  if◌then◌else◌, arith,
}
use macdetect.Server.{Server, Clients, poll, receive_all, drop_served, cycle, flat}

-- How often a client stands among the connections, and in a list of clients.
unfoldable pub connections : ℕ → List (ℕ × ℕ) → ℕ
connections h [] = 0
connections h ((c, id) ∷ cs) = (if c == h then 1 else 0) + connections h cs

unfoldable pub occurrences : ℕ → List ℕ → ℕ
occurrences h [] = 0
occurrences h (c ∷ cs) = (if c == h then 1 else 0) + occurrences h cs

pub connections-append :
    (h : ℕ) (xs ys : List (ℕ × ℕ)) → connections h (xs ++ ys) ≡ connections h xs + connections h ys
unfolding connections
connections-append h [] ys = omega arith
connections-append h ((c, id) ∷ xs) ys = omega (arith, connections-append h xs ys)

pub occurrences-append :
    (h : ℕ) (xs ys : List ℕ) → occurrences h (xs ++ ys) ≡ occurrences h xs + occurrences h ys
unfolding occurrences
occurrences-append h [] ys = omega arith
occurrences-append h (c ∷ xs) ys = omega (arith, occurrences-append h xs ys)

pub drop_served_conserves :
    (h : ℕ) (served : List (ℕ × ℕ)) (removed failed : List ℕ)
    → connections h (drop_served served removed failed).0
        + occurrences h (drop_served served removed failed).1
      ≡ connections h served + occurrences h removed
unfolding drop_served
drop_served_conserves h served removed [] = refl
drop_served_conserves h served removed (c ∷ cs) =
    elim (take_first-cases (λ (d : ℕ × ℕ). d.0 == c) served) [
      | inl (e, other) ↦ rw (e, drop_served) (drop_served_conserves h served removed cs)
      | inr s ↦
          let moved : connections h (s.found ∷ []) ≡ occurrences h (c ∷ []) =
            unfold connections occurrences in ground (arith, s.passes) in
          let split = ap (connections h) s.splits in
          let parts = connections-append h s.before (s.found ∷ s.behind) in
          let one = connections-append h (s.found ∷ []) s.behind in
          let kept = connections-append h s.before s.behind in
          let later = drop_served_conserves h (s.before ++ s.behind) (removed ++ (c ∷ [])) cs in
          rw (s.taken, drop_served) (omega (arith, occurrences-append h removed (c ∷ [])))
    ]

pub cycle_conserves :
    (env : Clients) (s : Server) (h : ℕ)
    → s.run ≡ true
    → connections h (cycle env s).0.served + occurrences h (cycle env s).0.removed
      ≡ connections h s.served
        + connections h (flat (map (λ v. poll (env.answer v) v) s.servings))
        + occurrences h s.removed
unfolding cycle
cycle_conserves env s h on =
    let new = flat (map (λ v. poll (env.answer v) v) s.servings) in
    let all = connections-append h s.served new in
    let dropped =
      drop_served_conserves h (s.served ++ new) s.removed
        (receive_all env.received (s.served ++ new)).1 in
    rw on (omega arith)
