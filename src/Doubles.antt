-- ===== src/Doubles.antt =====
-- `double`: the operations that the program uses. Rounding is left open; what is asked of the
-- operations is stated with the theorems that need it.
use macdetect.Base.{◌≡◌, Bool, true, Text}

pub record Doubles (D : Type 0) : Type 0 where
  pub plus : D → D → D
  pub minus : D → D → D
  pub gt : D → D → Bool
  pub ge : D → D → Bool
  pub eq : D → D → Bool
  pub zero : D
  pub minus_one : D
  -- `std::stringstream << d`
  pub show : D → Text
  pub eq-minus_one : eq minus_one minus_one ≡ true
