-- ===== src/Value/RoundTrip.antt =====
-- `Value::deserialize` of utils/src/Value.cpp reads back what `Value::serialize` writes.
use macdetect.Base.{
  ℕ, zero, suc, ◌^◌, ◌≤◌, ◌<◌, ◌≡◌, sym, ◌∙◌, ap, ◌++◌, some, Text, length, length-append,
  take-length, drop-length, arith, append_assoc,
}
use macdetect.Value.{Value, Values, value, nil, cons, size, push_back}
use macdetect.Value.Append.{append, append-push_back, append_nil}
use macdetect.Value.Wire.{
  le32, serialize, get_u32, get_text, get_values, deserialize_fuel, deserialize,
}
use macdetect.Value.Encode.{
  encode, fitting, encode_all, length-encode, size-le-length, serialize-encode,
}

get_u32-le32 : (n : ℕ) (r : Text) → n < 2 ^ 32 → get_u32 (le32 n ++ r) ≡ some (n, r)
unfolding get_u32 le32
get_u32-le32 n r h = ap (λ m. some (m, r)) (omega arith)

get_text-block :
    (s r : Text) → length s < 2 ^ 32 → get_text (le32 (length s) ++ (s ++ r)) ≡ some (s, r)
unfolding get_text
get_text-block s r h =
    rw (get_u32-le32 (length s) (s ++ r) h, take-length s r, drop-length s r)
      (ground (arith, length-append s r))

serialize_fitting : (len : ℕ) (b c : Text) → fitting len b ≡ some c → c ≡ b
serialize_fitting len b c e = ground arith

mutual
  unfolding encode size deserialize_fuel get_values append

  read_value :
      (v : Value) (f : ℕ) (r : Text)
      → length (encode v) < 2 ^ 31
      → length (encode v) ≤ f
      → deserialize_fuel f (encode v ++ r) ≡ some (v, r)
  read_value (value k c s) zero r h l = absurd (omega (arith, length-encode k c s))
  read_value (value k c s) (suc f) r h l =
      let total = length-encode k c s in
      let few = size-le-length s in
      let behind = le32 (size s) ++ (encode_all s ++ r) in
      let get_k = get_text-block k (le32 (length c) ++ (c ++ behind)) (omega arith) in
      let get_c = get_text-block c behind (omega arith) in
      let get_n = get_u32-le32 (size s) (encode_all s ++ r) (omega arith) in
      let get_s = read_values s f nil r (omega arith) (omega arith) in
      simp append_assoc (rw (get_k, get_c, get_n, get_s))

  read_values :
      (vs : Values) (f : ℕ) (acc : Values) (r : Text)
      → length (encode_all vs) < 2 ^ 31
      → length (encode_all vs) ≤ f
      → get_values (deserialize_fuel f) (size vs) acc (encode_all vs ++ r) ≡ some (append acc vs, r)
  read_values nil f acc r h l = rw (append_nil acc)
  read_values (cons v vs) f acc r h l =
      let parts = length-append (encode v) (encode_all vs) in
      let rest = read_values vs f (push_back acc v) r (omega arith) (omega arith) in
      rw
        (
          append_assoc (encode v) (encode_all vs) r,
          read_value v f (encode_all vs ++ r) (omega arith) (omega arith),
          ← append-push_back acc v vs,
        )
        rest

-- What `serialize` writes for a value, whatever stands behind it, `deserialize` reads back as the
-- same value, and it stops at the end of the encoding. The encoding is shorter than 2 GiB.
pub deserialize-encode :
    (v : Value) (rest : Text)
    → length (encode v) < 2 ^ 31
    → deserialize (encode v ++ rest) ≡ some (v, rest)
unfolding deserialize
deserialize-encode v rest h =
    read_value v (length (encode v ++ rest)) rest h (omega (arith, length-append (encode v) rest))

-- Whatever `serialize` writes into a buffer of less than 2 GiB, of a value whose encoding is shorter
-- than 2 GiB, `deserialize` reads back as the same value, with any bytes behind it, and stops right
-- behind it.
pub deserialize-serialize :
    (v : Value) (len : ℕ) (bytes rest : Text)
    → length (encode v) < 2 ^ 31
    → len < 2 ^ 31
    → serialize len v ≡ some bytes
    → deserialize (bytes ++ rest) ≡ some (v, rest)
deserialize-serialize v len bytes rest h l e =
    rw (serialize_fitting len (encode v) bytes (sym (serialize-encode v len h l) ∙ e))
      (deserialize-encode v rest h)
