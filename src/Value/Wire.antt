-- ===== src/Value/Wire.antt =====
-- `Value::serialize` and `Value::deserialize` of utils/src/Value.cpp. A buffer that is being written
-- is the list of the bytes in front of `nOffset`; a buffer that is being read is the list of the
-- bytes from `unOffset` on. `none` is the result -1 of the first, and in the second a read past the
-- end of the buffer, which the code does not check for.
use macdetect.Base.{
  ℕ, zero, suc, ◌+◌, ◌-◌, ◌*◌, ◌/◌, ◌%◌, ◌^◌, [], ◌∷◌, ◌++◌, Option, none, some, Text, length, take,
  drop, ltb, if◌then◌else◌, ◌>>=◌,
}
use macdetect.Value.{Value, Values, value, nil, cons, size, push_back}

abbrev pub u32_mod : ℕ
u32_mod = 2 ^ 32

-- `memcpy` of an `unsigned int`, on a little-endian machine.
unfoldable pub le32 : ℕ → Text
le32 n = (n % 256) ∷ (n / 256 % 256) ∷ (n / 65536 % 256) ∷ (n / 16777216 % 256) ∷ []

-- The length and the bytes of a string, if they fit into `len` bytes behind `buf`.
unfoldable pub put_text : ℕ → Text → Text → Option Text
put_text len buf s =
    let n = length s % u32_mod in
    if ltb len ((length buf + n) % u32_mod + 4) then none else some (buf ++ (le32 n ++ take n s))

-- The number of sub values.
unfoldable pub put_count : ℕ → Text → ℕ → Option Text
put_count len buf n = if ltb len (length buf + 4) then none else some (buf ++ le32 (n % u32_mod))

unfoldable mutual
  pub serialize : ℕ → Value → Option Text
  serialize len (value k c s) = do
    with_key ← put_text len [] k
    with_content ← put_text len with_key c
    with_count ← put_count len with_content (size s)
    put_values len with_count s

  pub put_values : ℕ → Text → Values → Option Text
  put_values len buf nil = some buf
  put_values len buf (cons v vs) =
      serialize ((len + u32_mod - length buf % u32_mod) % u32_mod) v >>= λ bytes.
      put_values len (buf ++ bytes) vs

unfoldable pub get_u32 : Text → Option (ℕ × Text)
get_u32 (a ∷ b ∷ c ∷ d ∷ r) = some (a + 256 * b + 65536 * c + 16777216 * d, r)
get_u32 _ = none

unfoldable pub get_text : Text → Option (Text × Text)
unfolding get_u32
get_text buf = do (n, r) ← get_u32 buf; if ltb (length r) n then none else some (take n r, drop n r)

-- The loop over the `unSubValueCount` sub values, with the function that reads one.
unfoldable pub get_values :
    (Text → Option (Value × Text)) → ℕ → Values → Text → Option (Values × Text)
get_values get zero vs r = some (vs, r)
get_values get (suc n) vs r = do (v, r') ← get r; get_values get n (push_back vs v) r'

-- The fuel bounds how deep values are nested. The result is the value and the bytes behind it.
unfoldable pub deserialize_fuel : ℕ → Text → Option (Value × Text)
deserialize_fuel zero buf = none
deserialize_fuel (suc f) buf = do
  (k, r₁) ← get_text buf
  (c, r₂) ← get_text r₁
  (n, r₃) ← get_u32 r₂
  (vs, r₄) ← get_values (deserialize_fuel f) n nil r₃
  some (value k c vs, r₄)

-- A value takes twelve bytes or more, so the length of the buffer is fuel enough.
unfoldable pub deserialize : Text → Option (Value × Text)
deserialize buf = deserialize_fuel (length buf) buf
