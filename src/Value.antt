-- ===== src/Value.antt =====
-- utils/include/macdetect-utils/Value.h and utils/src/Value.cpp: a value is a key, a content and a
-- list of values. A shared pointer to a value is the value itself, since the program adds a value
-- to another one only after it has filled it.
pub mod Wire
mod Append
pub mod Encode
pub mod RoundTrip
pub mod Laws
pub mod Print
mod Tests
use macdetect.Base.{
  ℕ, ◌≡◌, refl, List, [], ◌∷◌, Option, none, some, Text, text, str_eq, if◌then◌else◌,
}

mutual
  pub data Value : Type 0 where
    value : Text → Text → Values → Value

  pub data Values : Type 0 where
    nil : Values
    cons : Value → Values → Values

unfoldable pub key : Value → Text
key (value k c s) = k

unfoldable pub content : Value → Text
content (value k c s) = c

unfoldable pub sub_values : Value → Values
sub_values (value k c s) = s

-- `m_lstSubValues.push_back(valAdd)`
unfoldable pub push_back : Values → Value → Values
push_back nil x = cons x nil
push_back (cons v vs) x = cons v (push_back vs x)

-- `m_lstSubValues.size()`
unfoldable pub size : Values → ℕ
size nil = 0
size (cons v vs) = ℕ.suc (size vs)

-- `add(valAdd)`
unfoldable pub add : Value → Value → Value
add (value k c s) x = value k c (push_back s x)

-- `add(strKey, strContent)`
unfoldable pub add_pair : Value → Text → Text → Value
unfolding add
add_pair v k c = add v (value k c nil)

unfoldable pub add_pairs : Value → List (Text × Text) → Value
unfolding add_pair
add_pairs v [] = v
add_pairs v ((k, c) ∷ ps) = add_pairs (add_pair v k c) ps

-- The constructor.
unfoldable pub make : Text → Text → List (Text × Text) → Value
unfolding add_pairs
make k c ps = add_pairs (value k c nil) ps

-- `set(strKey, strContent)`
unfoldable pub set : Value → Text → Text → Value
set (value k c s) k' c' = value k' c' s

unfoldable mutual
  pub copy : Value → Value
  copy (value k c s) = copy_onto (value k c nil) s

  pub copy_onto : Value → Values → Value
  copy_onto acc nil = acc
  copy_onto acc (cons v vs) = copy_onto (add acc (copy v)) vs

unfoldable pub find_key : Values → Text → Option Value
find_key nil k = none
find_key (cons v vs) k = if str_eq (key v) k then some v else find_key vs k

-- `sub(strSubKey)`: the first sub value with this key.
unfoldable pub sub : Value → Text → Option Value
unfolding find_key key
sub (value k c s) j = find_key s j
