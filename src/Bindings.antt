-- ===== src/Bindings.antt =====
-- pymacdetect/src/PyMACDetect.cpp: the values of clients as Python dictionaries. The order in which a
-- dictionary lists its keys is an argument.
pub mod RoundTrip
pub mod Methods
mod Tests
use macdetect.Base.{
  ℕ, zero, suc, List, [], ◌∷◌, Option, none, some, Text, text, str_eq, ◌==◌, length, map,
  if◌then◌else◌, ◌>>=◌,
}
use macdetect.Value.{Value, value, Values, nil, cons, key}

-- What stands under a key of a dictionary: a dictionary with a `content`, and with or without `subs`.
mutual
  pub data PyContent : Type 0 where
    py_content : Text → PySubs → PyContent

  pub data PySubs : Type 0 where
    absent : PySubs
    subs : PyDict → PySubs

  pub data PyDict : Type 0 where
    empty : PyDict
    entry : Text → PyContent → PyDict → PyDict

-- The text that a `char*` stands for: it ends in front of the first zero.
unfoldable pub c_str : Text → Text
c_str [] = []
c_str (c ∷ cs) = let rest = c_str cs in if c == 0 then [] else c ∷ rest

-- `PyDict_SetItemString`
unfoldable pub set_item : PyDict → Text → PyContent → PyDict
set_item empty k x = entry k x empty
set_item (entry j y d) k x =
    let rest = set_item d k x in if str_eq j k then entry k x d else entry j y rest

unfoldable mutual
  pub value_to_content : Value → PyContent
  value_to_content (value k c s) = py_content c (values_to_subs s)

  pub values_to_subs : Values → PySubs
  values_to_subs nil = absent
  values_to_subs (cons v vs) =
      subs (add_subs (set_item empty (c_str (key v)) (value_to_content v)) vs)

  -- The loop of `valueToPyObject`.
  pub add_subs : PyDict → Values → PyDict
  add_subs d nil = d
  add_subs d (cons v vs) = add_subs (set_item d (c_str (key v)) (value_to_content v)) vs

-- `valueToPyObject`
unfoldable pub value_to_py_object : Value → PyDict
value_to_py_object v = set_item empty (c_str (key v)) (value_to_content v)

-- The entry under the first key of a dictionary; `none` is a null pointer.
unfoldable pub find : Text → List (Text × Option Value) → Option Value
find k [] = none
find k ((j, v) ∷ es) = if str_eq j k then v else find k es

unfoldable pub pick : List Text → List (Text × Option Value) → Option Value
unfolding find
pick [] es = none
pick (k ∷ ks) es = find (c_str k) es

unfoldable pub first_entry : (List Text → List Text) → List (Text × Option Value) → Option Value
unfolding pick
first_entry order es = pick (order (map (λ e. e.0) es)) es

-- The loop of `pyObjectToValue`: each of its rounds takes the key at 0.
unfoldable pub repeat : ℕ → Option Value → Option Values
repeat zero first = some nil
repeat (suc n) first = do v ← first; vs ← repeat n first; some (cons v vs)

unfoldable mutual
  pub content_to_value : (List Text → List Text) → Text → PyContent → Option Value
  content_to_value order k (py_content c s) =
      subs_to_values order s >>= λ vs. some (value (c_str k) (c_str c) vs)

  pub subs_to_values : (List Text → List Text) → PySubs → Option Values
  subs_to_values order absent = some nil
  subs_to_values order (subs d) =
      repeat (length (entries order d)) (first_entry order (entries order d))

  -- The entries as values.
  pub entries : (List Text → List Text) → PyDict → List (Text × Option Value)
  entries order empty = []
  entries order (entry k x d) = (k, content_to_value order k x) ∷ entries order d

-- `pyObjectToValue`; `none` is a null pointer that is followed.
unfoldable pub py_object_to_value : (List Text → List Text) → PyDict → Option Value
py_object_to_value order d = first_entry order (entries order d)
