-- ===== src/Base/Middle.antt =====
-- A list with an element in the middle, and the list without it.
use Prim.Native.Nat.{suc}
use mathlib.Core.Path.{◌≡◌, ap, ◌∙◌}
use mathlib.Core.Bool.{Bool, true, false}
use mathlib.Core.List.{List, ◌∷◌, ◌++◌}
use native.Mathlib.Omega.{arith}
use macdetect.Base.Lists.{
  All, length, length-append, reject, reject-append, select, select-append, select_none,
}

module _ {ℓ} {A : Type ℓ} where
  pub length-middle :
      (xs : List A) (x : A) (ys zs : List A)
      → zs ≡ xs ++ x ∷ ys
      → length zs ≡ suc (length (xs ++ ys))
  length-middle xs x ys zs e =
      ap length e ∙ omega (arith, length-append xs (x ∷ ys), length-append xs ys)

  pub reject-middle :
      (p : A → Bool) (xs : List A) (x : A) (ys zs : List A)
      → zs ≡ xs ++ x ∷ ys
      → p x ≡ true
      → reject p (xs ++ ys) ≡ reject p zs
  reject-middle p xs x ys zs e h = rw (e, reject-append p xs (x ∷ ys), reject-append p xs ys, h)

  pub select-middle :
      (p : A → Bool) (xs : List A) (x : A) (ys zs : List A)
      → zs ≡ xs ++ x ∷ ys
      → All (λ y. p y ≡ false) xs
      → p x ≡ true
      → x ∷ select p (xs ++ ys) ≡ select p zs
  select-middle p xs x ys zs e k h =
      rw (e, select-append p xs (x ∷ ys), select-append p xs ys, select_none p xs k, h)
