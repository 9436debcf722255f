-- ===== src/Base/Strings.antt =====
-- `std::string` as a list of bytes, and the operations on it that the program uses.
use Prim.Native.Char.{code}
use Prim.Native.Nat.{ℕ}
use Prim.Native.String.{String}
use mathlib.Core.Path.{◌≡◌, refl}
use mathlib.Core.Logic.{◌↔◌}
use mathlib.Core.Bool.{Bool, true, false, ◌&&◌}
use mathlib.Core.List.{List, [], ◌∷◌}
use native.Mathlib.Omega.{arith}
use macdetect.Base.Tests.{◌==◌, if◌then◌else◌}
use macdetect.Base.Lists.{take, drop}

abbrev pub Text : Type 0
Text = List ℕ

-- A literal of the source. All of them are ASCII.
unfoldable pub text : String → Text
text String.[] = []
text (String.◌∷◌ c s) = code c ∷ text s

-- `operator==`
unfoldable pub str_eq : Text → Text → Bool
str_eq [] [] = true
str_eq [] (y ∷ b) = false
str_eq (x ∷ a) [] = false
str_eq (x ∷ a) (y ∷ b) = x == y && str_eq a b

pub str_eq_iff : (a b : Text) → (str_eq a b ≡ true) ↔ (a ≡ b)
unfolding str_eq
str_eq_iff [] [] = ground arith
str_eq_iff [] (y ∷ b) = ground arith
str_eq_iff (x ∷ a) [] = ground arith
str_eq_iff (x ∷ a) (y ∷ b) = ground (arith, str_eq_iff a b)

pub str_eq_refl : (a : Text) → str_eq a a ≡ true
str_eq_refl a = (str_eq_iff a a).1 refl

-- `s.substr(pos, n)` for a position inside the text.
abbrev pub substr : Text → ℕ → ℕ → Text
substr s pos n = take n (drop pos s)

-- `s.erase(s.find_last_not_of(set) + 1)`: the text without the characters of the set at its end.
unfoldable pub trim_end : (ℕ → Bool) → Text → Text
trim_end set [] = []
trim_end set (c ∷ cs) = elim (trim_end set cs) [
  | [] ↦ if set c then [] else c ∷ []
  | d ∷ ds ↦ c ∷ d ∷ ds
]

-- `s.substr(s.find_first_not_of(set))`, where the set does not hold all characters of the text.
unfoldable pub trim_start : (ℕ → Bool) → Text → Text
trim_start set [] = []
trim_start set (c ∷ cs) = if set c then trim_start set cs else c ∷ cs

-- Without the first text that is equal.
unfoldable pub remove_text : Text → List Text → List Text
remove_text s [] = []
remove_text s (t ∷ ts) = if str_eq t s then ts else t ∷ remove_text s ts
