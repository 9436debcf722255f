-- ===== src/Value/Print.antt =====
-- `Value::print` of utils/src/Value.cpp: the text that is written to the console.
use macdetect.Base.{ℕ, zero, suc, [], ◌++◌, Text, text}
use macdetect.Value.{Value, Values, value, nil, cons}

unfoldable pub indentation : ℕ → Text
indentation zero = []
indentation (suc n) = indentation n ++ text "  "

unfoldable mutual
  pub print : ℕ → Value → Text
  print indent (value k c s) =
      indentation indent
      ++ (text " - " ++ (k ++ (text " = " ++ (c ++ (text "\n" ++ print_all (suc indent) s)))))

  pub print_all : ℕ → Values → Text
  print_all indent nil = []
  print_all indent (cons v vs) = print indent v ++ print_all indent vs
