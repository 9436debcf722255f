-- ===== src/Value/Append.antt =====
-- Concatenation of lists of values: what a chain of `push_back` of utils/src/Value.cpp makes.
use macdetect.Base.{◌≡◌, refl, ap}
use macdetect.Value.{Value, Values, nil, cons, push_back}

unfoldable pub append : Values → Values → Values
append nil ys = ys
append (cons x xs) ys = cons x (append xs ys)

pub append-push_back :
    (xs : Values) (v : Value) (ys : Values) → append (push_back xs v) ys ≡ append xs (cons v ys)
unfolding append push_back
append-push_back nil v ys = refl
append-push_back (cons x xs) v ys = ap (cons x) (append-push_back xs v ys)

pub append_nil : (xs : Values) → append xs nil ≡ xs
unfolding append
append_nil nil = refl
append_nil (cons x xs) = ap (cons x) (append_nil xs)
