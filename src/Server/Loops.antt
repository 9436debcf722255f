-- ===== src/Server/Loops.antt =====
-- The loops of `Server::cycle` in macdetectd/src/Server.cpp.
use macdetect.Base.{
  Bool, false, ◌&&◌, select, ℕ, zero, suc, ◌≤◌, true, List, [], ◌∷◌, ◌++◌, map, ◌≡◌, refl, sym, ap,
  ◌∙◌, inl, inr, reject, reject-middle, length-middle, reject-All, take_first-cases, length, arith,
}
use macdetect.Server.{
  started, stopped, invalid, Serving, Server, Answer, accepted, would_block, accept_failed, Clients,
  listening, poll, is_dead, close_dead, cycle,
}

dead_none : (vs : List Serving) → length vs ≤ 0 → vs ≡ reject is_dead vs
dead_none [] h = refl
dead_none (v ∷ vs) h = absurd (omega arith)

-- The loop that closes the sockets one by one keeps exactly those that listen, in their order. The
-- number of the sockets, or more, is fuel enough.
pub close_dead_lem :
    (f : ℕ) (vs : List Serving) → length vs ≤ f → close_dead f vs ≡ reject is_dead vs
unfolding close_dead
close_dead_lem zero vs h = dead_none vs h
close_dead_lem (suc f) vs h = elim (take_first-cases is_dead vs) [
  | inl (e, alive) ↦ rw (e, close_dead) (sym (reject-All is_dead vs alive))
  | inr s ↦
      let rest = s.before ++ s.behind in
      let fewer = length-middle s.before s.found s.behind vs s.splits in
      rw (s.taken, close_dead)
        (close_dead_lem f rest (omega arith)
          ∙ reject-middle is_dead s.before s.found s.behind vs s.splits s.passes)
]

length-map {ℓ κ} :
    {A : Type ℓ} {B : Type κ} (f : A → B) (xs : List A) → length (map f xs) ≡ length xs
length-map f [] = refl
length-map f (x ∷ xs) = ap suc (length-map f xs)

-- A serving socket outlives a round if it listens already, or begins to, and `accept4` does not fail.
unfoldable pub outlives : Answer → Serving → Bool
outlives a v =
    (elim v.status [ started ↦ true | stopped ↦ a.listens | invalid ↦ false ])
    && (elim a.accept [ accepted _ ↦ true | would_block ↦ true | accept_failed ↦ false ])

abbrev pub as_started : Serving → Serving
as_started v = record v { status = started }

alive-poll :
    (answer : Serving → Answer) (vs : List Serving)
    → reject is_dead (map (λ p. p.0) (map (λ v. poll (answer v) v) vs))
      ≡ map as_started (select (λ v. outlives (answer v) v) vs)
unfolding is_dead poll listening outlives
alive-poll answer [] = refl
alive-poll answer (v ∷ vs) = ground (arith, alive-poll answer vs)

-- The serving sockets behind a round of a running server are those that outlive it, in their order,
-- and each of them listens: one that is broken, or whose `listen` or `accept4` fails, is gone, and no
-- other one is.
pub cycle_servings :
    (env : Clients) (s : Server)
    → s.run ≡ true
    → (cycle env s).0.servings ≡ map as_started (select (λ v. outlives (env.answer v) v) s.servings)
unfolding cycle
cycle_servings env s on =
    let polled = map (λ v. poll (env.answer v) v) s.servings in
    let sizes = length-map (λ (v : Serving). poll (env.answer v) v) s.servings in
    let sizes' = length-map (λ (p : Serving × List (ℕ × ℕ)). p.0) polled in
    rw
      (
        on,
        close_dead_lem (length s.servings) (map (λ (p : Serving × List (ℕ × ℕ)). p.0) polled)
            (omega arith),
      )
      (alive-poll env.answer s.servings)
