-- ===== src/Bindings/RoundTrip.antt =====
-- Values that go to Python and back, in pymacdetect/src/PyMACDetect.cpp.
use macdetect.Base.{
  List, [], ◌∷◌, Option, some, Text, str_eq, str_eq_refl, Bool, true, false, if◌then◌else◌, map,
  ◌≡◌, ap, ◌∙◌,
}
use macdetect.Value.{Value, value, nil, cons, key}
use macdetect.Bindings.{
  c_str, value_to_content, add_subs, set_item, value_to_py_object, find, pick, first_entry, repeat,
  content_to_value, entries, py_object_to_value,
}

-- Each value has one value in it at most, and there are no zeros in the texts.
abbrev pub IsChain : Value → Type 0
IsChain (value k c nil) = (c_str k ≡ k) × (c_str c ≡ c)
IsChain (value k c (cons v nil)) = (c_str k ≡ k) × (c_str c ≡ c) × IsChain v
IsChain (value k c (cons v (cons w vs))) = ⊥

IsChain-key : (v : Value) → IsChain v → c_str (key v) ≡ key v
unfolding key
IsChain-key (value k c nil) h = h.0
IsChain-key (value k c (cons v nil)) h = h.0
IsChain-key (value k c (cons v (cons w vs))) h = absurd h

-- `PyDict_Keys` lists the one key of a dictionary that has one.
abbrev pub IsOrder : (List Text → List Text) → Type 0
IsOrder order = (k : Text) → order (k ∷ []) ≡ k ∷ []

first_entry_lem :
    (order : List Text → List Text) (es : List (Text × Option Value)) (k : Text) (ks : List Text)
    → order (map (λ e. e.0) es) ≡ k ∷ ks
    → c_str k ≡ k
    → first_entry order es ≡ find k es
unfolding first_entry pick
first_entry_lem order es k ks listed plain = ap (λ l. pick l es) listed ∙ ap (λ j. find j es) plain

find_here :
    (k : Text) (r : Option Value) (es : List (Text × Option Value)) → find k ((k, r) ∷ es) ≡ r
unfolding find
find_here k r es = rw (str_eq_refl k)

find_behind :
    (j k : Text) (r : Option Value) (es : List (Text × Option Value))
    → str_eq j k ≡ false
    → find k ((j, r) ∷ es) ≡ find k es
unfolding find
find_behind j k r es apart = rw apart

one_entry :
    (order : List Text → List Text) (k : Text) (r : Option Value)
    → IsOrder order
    → c_str k ≡ k
    → first_entry order ((k, r) ∷ []) ≡ r
one_entry order k r one plain =
    first_entry_lem order ((k, r) ∷ []) k [] (one k) plain ∙ find_here k r []

content_to_value-IsChain :
    (order : List Text → List Text) (v : Value)
    → IsOrder order
    → IsChain v
    → content_to_value order (key v) (value_to_content v) ≡ some v
unfolding content_to_value value_to_content entries set_item add_subs key repeat
content_to_value-IsChain order (value k c nil) one h = rw (h.0, h.1)
content_to_value-IsChain order (value k c (cons v nil)) one h =
    let plain = IsChain-key v h.2 in
    let inner = content_to_value-IsChain order v one h.2 in
    rw (plain, inner, one_entry order (key v) (some v) one plain, h.0, h.1)
content_to_value-IsChain order (value k c (cons v (cons w vs))) one h = absurd h

-- A value that goes to Python and back is the same, if each value has one value in it at most, and no
-- text has a zero byte in it. A dictionary with one key lists this key.
pub py_object_to_value-value_to_py_object :
    (order : List Text → List Text) (v : Value)
    → IsOrder order
    → IsChain v
    → py_object_to_value order (value_to_py_object v) ≡ some v
unfolding py_object_to_value value_to_py_object set_item entries
py_object_to_value-value_to_py_object order v one h =
    let plain = IsChain-key v h in
    rw (plain, content_to_value-IsChain order v one h, one_entry order (key v) (some v) one plain)

repeated :
    (order : List Text → List Text) (k c : Text) (v w x : Value)
    → IsOrder order
    → c_str k ≡ k
    → c_str c ≡ c
    → IsChain v
    → IsChain w
    → str_eq (key v) (key w) ≡ false
    → first_entry order ((key v, some v) ∷ (key w, some w) ∷ []) ≡ some x
    → py_object_to_value order (value_to_py_object (value k c (cons v (cons w nil))))
      ≡ some (value k c (cons x (cons x nil)))
unfolding py_object_to_value value_to_py_object content_to_value value_to_content set_item entries
    add_subs key repeat
repeated order k c v w x one hk hc hv hw apart there =
    let plain_v = IsChain-key v hv in
    let plain_w = IsChain-key w hw in
    let one_v = content_to_value-IsChain order v one hv in
    let one_w = content_to_value-IsChain order w one hw in
    let whole = one_entry order k (some (value k c (cons x (cons x nil)))) one hk in
    rw (hk, hk, plain_v, plain_w, apart, one_v, one_w, there, hc) whole

-- Of two values in a value, with different keys, only the one whose key is listed first comes back
-- from Python, and it comes twice: `order` lists the key of the first value in front of that of the
-- second one, or behind it. Each value has one value in it at most, no text has a zero byte in it, and
-- a dictionary with one key lists this key.
pub py_object_to_value_two :
    (order : List Text → List Text) (k c : Text) (v w : Value) (in_order : Bool)
    → IsOrder order
    → c_str k ≡ k
    → c_str c ≡ c
    → IsChain v
    → IsChain w
    → str_eq (key v) (key w) ≡ false
    → order (key v ∷ key w ∷ []) ≡ (if in_order then key v ∷ key w ∷ [] else key w ∷ key v ∷ [])
    → let x = if in_order then v else w in
      py_object_to_value order (value_to_py_object (value k c (cons v (cons w nil))))
      ≡ some (value k c (cons x (cons x nil)))
py_object_to_value_two order k c v w true one hk hc hv hw apart listed =
    let both = (key v, some v) ∷ (key w, some w) ∷ [] in
    repeated order k c v w v one hk hc hv hw apart (
      first_entry_lem order both (key v) (key w ∷ []) listed (IsChain-key v hv)
      ∙ find_here (key v) (some v) ((key w, some w) ∷ []))
py_object_to_value_two order k c v w false one hk hc hv hw apart listed =
    let both = (key v, some v) ∷ (key w, some w) ∷ [] in
    repeated order k c v w w one hk hc hv hw apart (
      first_entry_lem order both (key w) (key v ∷ []) listed (IsChain-key w hw)
      ∙ find_behind (key v) (key w) (some v) ((key w, some w) ∷ []) apart
      ∙ find_here (key w) (some w) [])
