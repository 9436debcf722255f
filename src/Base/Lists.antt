-- ===== src/Base/Lists.antt =====
-- Lists measured and indexed by the native numbers, under the library's names.
use Prim.Native.Nat.{ℕ, zero, suc, ◌+◌, ◌-◌, ◌≤◌, min}
use mathlib.Core.Path.{◌≡◌, refl, ap}
use mathlib.Core.Bool.{Bool, true, false, ◌&&◌, ◌||◌}
use mathlib.Core.List.{List, [], ◌∷◌, ◌++◌}
use mathlib.Core.Option.{Option, none, some}
use native.Mathlib.Omega.{arith}
use macdetect.Base.Tests.{if◌then◌else◌, Bool-cases}
use mathlib.Core.Logic.{◌⊎◌, inl, inr}

module _ {ℓ} {A : Type ℓ} where
  abbrev pub length : List A → ℕ
  length [] = 0
  length (x ∷ xs) = suc (length xs)

  abbrev pub get_elem? : List A → ℕ → Option A
  get_elem? [] i = none
  get_elem? (x ∷ xs) zero = some x
  get_elem? (x ∷ xs) (suc i) = get_elem? xs i

  abbrev pub take : ℕ → List A → List A
  take zero xs = []
  take (suc n) [] = []
  take (suc n) (x ∷ xs) = x ∷ take n xs

  abbrev pub drop : ℕ → List A → List A
  drop zero xs = xs
  drop (suc n) [] = []
  drop (suc n) (x ∷ xs) = drop n xs

  abbrev pub any : (A → Bool) → List A → Bool
  any p [] = false
  any p (x ∷ xs) = p x || any p xs

  abbrev pub all : (A → Bool) → List A → Bool
  all p [] = true
  all p (x ∷ xs) = p x && all p xs

  abbrev pub All {κ} : (A → Type κ) → List A → Type κ
  All P [] = Unit
  All P (x ∷ xs) = P x × All P xs

module _ {ℓ} {A : Type ℓ} where
  pub length-append : (xs ys : List A) → length (xs ++ ys) ≡ length xs + length ys
  length-append [] ys = omega arith
  length-append (x ∷ xs) ys = omega (arith, length-append xs ys)

  pub take-length : (xs ys : List A) → take (length xs) (xs ++ ys) ≡ xs
  take-length [] ys = refl
  take-length (x ∷ xs) ys = ap (◌∷◌ x) (take-length xs ys)

  pub drop-length : (xs ys : List A) → drop (length xs) (xs ++ ys) ≡ ys
  drop-length [] ys = refl
  drop-length (x ∷ xs) ys = drop-length xs ys

  pub take_all : (n : ℕ) (xs : List A) → length xs ≤ n → take n xs ≡ xs
  take_all zero [] h = refl
  take_all zero (x ∷ xs) h = absurd (omega arith)
  take_all (suc n) [] h = refl
  take_all (suc n) (x ∷ xs) h = ap (◌∷◌ x) (take_all n xs (omega arith))

  pub length-take : (n : ℕ) (xs : List A) → length (take n xs) ≡ min n (length xs)
  length-take zero xs = omega arith
  length-take (suc n) [] = omega arith
  length-take (suc n) (x ∷ xs) = omega (arith, length-take n xs)

  pub length-drop : (n : ℕ) (xs : List A) → length (drop n xs) ≡ length xs - n
  length-drop zero xs = omega arith
  length-drop (suc n) [] = omega arith
  length-drop (suc n) (x ∷ xs) = omega (arith, length-drop n xs)

  pub take-append-drop : (n : ℕ) (xs : List A) → take n xs ++ drop n xs ≡ xs
  take-append-drop zero xs = refl
  take-append-drop (suc n) [] = refl
  take-append-drop (suc n) (x ∷ xs) = ap (◌∷◌ x) (take-append-drop n xs)

module _ {ℓ} {A : Type ℓ} where
  -- The first element that passes the test, and the list without it: a loop that looks for an
  -- element, erases it and breaks.
  unfoldable pub take_first : (A → Bool) → List A → Option (A × List A)
  take_first p [] = none
  take_first p (x ∷ xs) =
      if p x
      then some (x, xs)
      else (elim (take_first p xs) [ none ↦ none | some (y, ys) ↦ some (y, x ∷ ys) ])

  -- How a list splits at the element that `take_first` finds.
  pub record FirstAt (p : A → Bool) (xs : List A) : Type ℓ where
    pub before : List A
    pub found : A
    pub behind : List A
    pub splits : xs ≡ before ++ found ∷ behind
    pub passes : p found ≡ true
    pub none_before : All (λ x. p x ≡ false) before
    pub taken : take_first p xs ≡ some (found, before ++ behind)

  pub take_first-cases :
      (p : A → Bool) (xs : List A)
      → ((take_first p xs ≡ none) × All (λ x. p x ≡ false) xs) ⊎ FirstAt p xs
  unfolding take_first
  take_first-cases p [] = inl (refl, tt)
  take_first-cases p (x ∷ xs) = elim (Bool-cases (p x)) [
    | inl hit ↦ inr (record {
      before = [];
      found = x;
      behind = xs;
      splits = refl;
      passes = hit;
      none_before = tt;
      taken = rw hit;
    })
    | inr miss ↦ elim (take_first-cases p xs) [
      | inl (e, h) ↦ inl (rw (miss, e), (miss, h))
      | inr s ↦ inr (record {
        before = x ∷ s.before;
        found = s.found;
        behind = s.behind;
        splits = ap (◌∷◌ x) s.splits;
        passes = s.passes;
        none_before = (miss, s.none_before);
        taken = rw (miss, s.taken);
      })
    ]
  ]

  -- The elements that fail the test.
  abbrev pub reject : (A → Bool) → List A → List A
  reject p [] = []
  reject p (x ∷ xs) = if p x then reject p xs else x ∷ reject p xs

  pub reject-append :
      (p : A → Bool) (xs ys : List A) → reject p (xs ++ ys) ≡ reject p xs ++ reject p ys
  reject-append p [] ys = refl
  reject-append p (x ∷ xs) ys = ground (arith, reject-append p xs ys)

  pub reject-All : (p : A → Bool) (xs : List A) → All (λ x. p x ≡ false) xs → reject p xs ≡ xs
  reject-All p [] h = refl
  reject-All p (x ∷ xs) h = rw h.0 (ap (◌∷◌ x) (reject-All p xs h.1))

  -- The elements that pass the test.
  abbrev pub select : (A → Bool) → List A → List A
  select p [] = []
  select p (x ∷ xs) = if p x then x ∷ select p xs else select p xs

  pub select-append :
      (p : A → Bool) (xs ys : List A) → select p (xs ++ ys) ≡ select p xs ++ select p ys
  select-append p [] ys = refl
  select-append p (x ∷ xs) ys = ground (arith, select-append p xs ys)

  pub select_none : (p : A → Bool) (xs : List A) → All (λ x. p x ≡ false) xs → select p xs ≡ []
  select_none p [] h = refl
  select_none p (x ∷ xs) h = rw h.0 (select_none p xs h.1)

  pub All-append {κ} : (P : A → Type κ) (xs ys : List A) → All P xs → All P ys → All P (xs ++ ys)
  All-append P [] ys h k = k
  All-append P (x ∷ xs) ys h k = (h.0, All-append P xs ys h.1 k)

  -- What holds of all of a list holds of a list without one of its elements.
  pub All-without {κ} :
      (P : A → Type κ) (xs : List A) (x : A) (ys : List A) → All P (xs ++ x ∷ ys) → All P (xs ++ ys)
  All-without P [] x ys h = h.1
  All-without P (y ∷ xs) x ys h = (h.0, All-without P xs x ys h.1)
