-- ===== src/Server/Apart.antt =====
-- The serving sockets of macdetectd/src/Server.cpp, from one round of `cycle` to the next.
use macdetect.Base.{
  ℕ, zero, suc, Bool, false, ◌&&◌, List, [], ◌∷◌, ◌++◌, map, Text, str_eq, ◌==◌, any, length, ◌≡◌,
  refl, sym, ap, ◌∙◌, Bool-cases, inl, inr, arith, take_first-cases,
}
use macdetect.Server.{Serving, Answer, Clients, Server, listening, poll, is_dead, close_dead, cycle}
use macdetect.Server.Ids.{uses, serves, Distinct}

-- The number, the device and the port of a socket.
abbrev mark : Serving → ℕ × Text × ℕ
mark v = (v.id, v.device_name, v.port)

listening-mark : (b : Bool) (v : Serving) → mark (listening b v) ≡ mark v
unfolding listening
listening-mark b v = ground arith

poll-mark : (a : Answer) (v : Serving) → mark (poll a v).0 ≡ mark v
unfolding poll
poll-mark a v = ground (arith, listening-mark a.listens v)

-- The sockets behind the first loop.
abbrev polled : (Serving → Answer) → List Serving → List Serving
polled answer vs = map (λ p. p.0) (map (λ v. poll (answer v) v) vs)

polled-any :
    (answer : Serving → Answer) (f : ℕ × Text × ℕ → Bool) (vs : List Serving)
    → any (λ v. f (mark v)) (polled answer vs) ≡ any (λ v. f (mark v)) vs
polled-any answer f [] = refl
polled-any answer f (v ∷ vs) = rw (ap f (poll-mark (answer v) v), polled-any answer f vs)

polled-Distinct :
    (answer : Serving → Answer) (vs : List Serving) → Distinct vs → Distinct (polled answer vs)
polled-Distinct answer [] h = tt
polled-Distinct answer (v ∷ vs) h =
    let same = poll-mark (answer v) v in
    let used = polled-any answer (λ m. m.0 == v.id) vs in
    let served = polled-any answer (λ m. str_eq m.1 v.device_name && m.2 == v.port) vs in
    (
      ap (λ m. uses m.0 (polled answer vs)) same ∙ used ∙ h.0,
      ap (λ m. serves m.1 m.2 (polled answer vs)) same ∙ served ∙ h.1,
      polled-Distinct answer vs h.2,
    )

without-any :
    (p : Serving → Bool) (xs : List Serving) (v : Serving) (ys : List Serving)
    → any p (xs ++ v ∷ ys) ≡ false
    → any p (xs ++ ys) ≡ false
without-any p [] v ys h = ground arith
without-any p (x ∷ xs) v ys h = ground (arith, without-any p xs v ys)

without-Distinct :
    (xs : List Serving) (v : Serving) (ys : List Serving)
    → Distinct (xs ++ v ∷ ys)
    → Distinct (xs ++ ys)
without-Distinct [] v ys h = h.2
without-Distinct (x ∷ xs) v ys h = (
  without-any (λ w. w.id == x.id) xs v ys h.0,
  without-any (λ w. str_eq w.device_name x.device_name && w.port == x.port) xs v ys h.1,
  without-Distinct xs v ys h.2,
)

close_dead-Distinct : (f : ℕ) (vs : List Serving) → Distinct vs → Distinct (close_dead f vs)
unfolding close_dead
close_dead-Distinct zero vs h = h
close_dead-Distinct (suc f) vs h = elim (take_first-cases is_dead vs) [
  | inl (e, alive) ↦ rw (e, close_dead) h
  | inr s ↦
      let split : Distinct (s.before ++ s.found ∷ s.behind) = rw (sym s.splits) h in
      rw (s.taken, close_dead)
        (close_dead-Distinct f (s.before ++ s.behind)
          (without-Distinct s.before s.found s.behind split))
]

-- A round of the server keeps the numbers of the serving sockets apart, and the pairs of a device and
-- a port, whatever `listen`, `accept4` and the clients do.
pub cycle-Distinct :
    (env : Clients) (s : Server) → Distinct s.servings → Distinct (cycle env s).0.servings
unfolding cycle
cycle-Distinct env s h = elim (Bool-cases s.run) [
  | inl up ↦ rw up (
      close_dead-Distinct (length s.servings) (polled env.answer s.servings)
        (polled-Distinct env.answer s.servings h))
  | inr down ↦ rw down h
]
