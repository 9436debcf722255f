-- ===== src/Value/Laws.antt =====
-- The other operations of utils/src/Value.cpp: the copy of a value, and the lookup of a sub value.
use macdetect.Base.{
  ◌≡◌, refl, none, some, Text, str_eq, str_eq_refl, if◌then◌else◌, arith, List, [], ◌∷◌,
}
use macdetect.Value.Append.{append, append-push_back, append_nil}
use macdetect.Value.{
  Value, Values, value, nil, cons, key, push_back, add, add_pair, add_pairs, make, find_key, sub,
  copy, copy_onto,
}

mutual
  unfolding copy add append

  copy_same : (v : Value) → copy v ≡ v
  copy_same (value k c s) = copy_onto_same k c nil s

  copy_onto_same :
      (k c : Text) (acc s : Values) → copy_onto (value k c acc) s ≡ value k c (append acc s)
  copy_onto_same k c acc nil = rw (append_nil acc)
  copy_onto_same k c acc (cons v vs) =
      rw (copy_same v, ← append-push_back acc v vs) (copy_onto_same k c (push_back acc v) vs)

-- The copy of a value is the same value, at every depth.
pub copy_lem : (v : Value) → copy v ≡ v
copy_lem v = copy_same v

find_key-push_back :
    (s : Values) (x : Value) (j : Text)
    → find_key (push_back s x) j
      ≡ elim (find_key s j) [ some w ↦ some w | none ↦ if str_eq (key x) j then some x else none ]
unfolding find_key push_back
find_key-push_back nil x j = refl
find_key-push_back (cons v vs) x j = ground (arith, find_key-push_back vs x j)

-- A value that is added is found under its key if no sub value before it has that key, and changes
-- no other lookup: `sub` gives the first sub value of a key.
pub sub-add :
    (v x : Value) (j : Text)
    → sub (add v x) j
      ≡ elim (sub v j) [ some w ↦ some w | none ↦ if str_eq (key x) j then some x else none ]
unfolding sub add
sub-add (value k c s) x j = find_key-push_back s x j

add_pairs_keeps :
    (qs : List (Text × Text)) (v w : Value) (j : Text)
    → sub v j ≡ some w
    → sub (add_pairs v qs) j ≡ some w
unfolding add_pairs
add_pairs_keeps [] v w j e = e
add_pairs_keeps ((a, b) ∷ qs) v w j e =
    add_pairs_keeps qs (add_pair v a b) w j (unfold add_pair in rw (sub-add v (value a b nil) j, e))

-- Of the pairs that a value is made from, the first one with a key answers for it.
pub sub-make :
    (k c j d : Text) (ps : List (Text × Text))
    → sub (make k c ((j, d) ∷ ps)) j ≡ some (value j d nil)
unfolding make
sub-make k c j d ps = add_pairs_keeps ps (add_pair (value k c nil) j d) (value j d nil) j first
  where
    first : sub (add_pair (value k c nil) j d) j ≡ some (value j d nil)
    first = unfold sub add_pair add push_back key find_key in rw (str_eq_refl j)
