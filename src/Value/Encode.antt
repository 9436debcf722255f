-- ===== src/Value/Encode.antt =====
-- The wire format of a value, written without a buffer, and the proof that `Value::serialize` of
-- utils/src/Value.cpp writes it.
use macdetect.Base.{
  ℕ, ◌+◌, ◌-◌, ◌*◌, ◌%◌, ◌^◌, ◌≤◌, ◌<◌, ◌≡◌, refl, ◌++◌, [], Option, none, some, Text, length,
  length-append, take_all, ltb, if◌then◌else◌, Bool-cases, inl, inr, arith, append_assoc,
  append-nil, ap, ◌>>=◌,
}
use macdetect.Value.{Value, Values, value, nil, cons, size}
use macdetect.Value.Wire.{u32_mod, le32, put_text, put_count, serialize, put_values}

unfoldable mutual
  -- The lengths go in front of the texts, and the number of the sub values in front of these.
  pub encode : Value → Text
  encode (value k c s) =
      le32 (length k) ++ (k ++ (le32 (length c) ++ (c ++ (le32 (size s) ++ encode_all s))))

  pub encode_all : Values → Text
  encode_all nil = []
  encode_all (cons v vs) = encode v ++ encode_all vs

-- A result that is there if the bytes fit.
abbrev pub fitting : ℕ → Text → Option Text
fitting len bytes = if ltb len (length bytes) then none else some bytes

pub length-le32 : (n : ℕ) → length (le32 n) ≡ 4
unfolding le32
length-le32 n = refl

pub length-block : (n : ℕ) (s r : Text) → length (le32 n ++ (s ++ r)) ≡ 4 + length s + length r
length-block n s r =
    omega (arith, length-append (le32 n) (s ++ r), length-append s r, length-le32 n)

pub length-encode :
    (k c : Text) (s : Values)
    → length (encode (value k c s)) ≡ 12 + length k + length c + length (encode_all s)
unfolding encode
length-encode k c s = omega (
  arith,
  length-block (length k) k (le32 (length c) ++ (c ++ (le32 (size s) ++ encode_all s))),
  length-block (length c) c (le32 (size s) ++ encode_all s),
  length-append (le32 (size s)) (encode_all s),
  length-le32 (size s),
)

pub le-length-encode : (v : Value) → 12 ≤ length (encode v)
le-length-encode (value k c s) = omega (arith, length-encode k c s)

pub size-le-length : (vs : Values) → 12 * size vs ≤ length (encode_all vs)
unfolding size encode
size-le-length nil = omega arith
size-le-length (cons v vs) =
    omega (arith, size-le-length vs, le-length-encode v, length-append (encode v) (encode_all vs))

put_text_lem :
    (len : ℕ) (buf s : Text)
    → length buf + length s + 4 < 2 ^ 31
    → put_text len buf s ≡ fitting len (buf ++ (le32 (length s) ++ s))
unfolding put_text
put_text_lem len buf s h =
    let short : length s % u32_mod ≡ length s = omega arith in
    let sum : (length buf + length s) % u32_mod ≡ length buf + length s = omega arith in
    rw (short, sum, take_all (length s) s (omega arith))
      (ground (
        arith,
        length-append buf (le32 (length s) ++ s),
        length-append (le32 (length s)) s,
        length-le32 (length s),
      ))

put_count_lem :
    (len : ℕ) (buf : Text) (n : ℕ) → n < 2 ^ 31 → put_count len buf n ≡ fitting len (buf ++ le32 n)
unfolding put_count
put_count_lem len buf n h =
    let short : n % u32_mod ≡ n = omega arith in
    rw short (ground (arith, length-append buf (le32 n), length-le32 n))

-- A step that gives `x` where its `b` bytes fit, with steps behind it that write `r` in all.
bind-fitting :
    (len b : ℕ) (m : Option Text) (f : Text → Option Text) (x r : Text)
    → b ≤ length r
    → m ≡ (if ltb len b then none else some x)
    → (b ≤ len → f x ≡ fitting len r)
    → (m >>= f) ≡ fitting len r
bind-fitting len b m f x r part e k = elim (Bool-cases (ltb len b)) [
  | inl over ↦ rw (e, over) (ground arith)
  | inr fits ↦ rw (e, fits) (k (ground arith))
]

-- The remaining length that a sub value is given.
remaining : (len b : ℕ) → b ≤ len → len < 2 ^ 31 → (len + u32_mod - b % u32_mod) % u32_mod ≡ len - b
remaining len b h k = omega arith

regroup :
    (a k b c n s : Text) → (((a ++ k) ++ (b ++ c)) ++ n) ++ s ≡ a ++ (k ++ (b ++ (c ++ (n ++ s))))
regroup a k b c n s = simp append_assoc

mutual
  unfolding serialize encode

  serialize_fits :
      (v : Value) (len : ℕ)
      → length (encode v) < 2 ^ 31
      → len < 2 ^ 31
      → serialize len v ≡ fitting len (encode v)
  serialize_fits (value k c s) len h l =
      let b₁ = le32 (length k) ++ k in
      let b₂ = b₁ ++ (le32 (length c) ++ c) in
      let b₃ = b₂ ++ le32 (size s) in
      let all = regroup (le32 (length k)) k (le32 (length c)) c (le32 (size s)) (encode_all s) in
      let total = length-encode k c s in
      let few = size-le-length s in
      let l₁ = length-append (le32 (length k)) k in
      let l₂ = length-append b₁ (le32 (length c) ++ c) in
      let l₂' = length-append (le32 (length c)) c in
      let l₃ = length-append b₂ (le32 (size s)) in
      let l₄ = length-append b₃ (encode_all s) in
      let i₁ = length-le32 (length k) in
      let i₂ = length-le32 (length c) in
      let i₃ = length-le32 (size s) in
      let whole = ap length all in
      rw (← all) (
        bind-fitting len (length b₁) (put_text len [] k) _ b₁ (b₃ ++ encode_all s) (omega arith)
          (put_text_lem len [] k (omega arith))
          (λ _.
            bind-fitting len (length b₂) (put_text len b₁ c) _ b₂ (b₃ ++ encode_all s) (omega arith)
              (put_text_lem len b₁ c (omega arith))
              (λ _.
                bind-fitting len (length b₃) (put_count len b₂ (size s)) _ b₃ (b₃ ++ encode_all s)
                  (omega arith) (put_count_lem len b₂ (size s) (omega arith))
                  (λ fits. put_values_fits s len b₃ (omega arith) fits l))))

  put_values_fits :
      (vs : Values) (len : ℕ) (buf : Text)
      → length buf + length (encode_all vs) < 2 ^ 31
      → length buf ≤ len
      → len < 2 ^ 31
      → put_values len buf vs ≡ fitting len (buf ++ encode_all vs)
  put_values_fits nil len buf h b l = rw append-nil (ground arith)
  put_values_fits (cons v vs) len buf h b l =
      let parts = length-append (encode v) (encode_all vs) in
      let l₁ = length-append buf (encode v) in
      let l₂ = length-append (buf ++ encode v) (encode_all vs) in
      rw
        (
          remaining len (length buf) b l,
          serialize_fits v (len - length buf) (omega arith) (omega arith),
          ← append_assoc buf (encode v) (encode_all vs),
        )
        (bind-fitting len (length (buf ++ encode v)) (fitting (len - length buf) (encode v))
          (λ bytes. put_values len (buf ++ bytes) vs) (encode v)
          ((buf ++ encode v) ++ encode_all vs) (omega arith) (ground arith)
          (λ fits. put_values_fits vs len (buf ++ encode v) (omega arith) fits l))

-- `serialize` fails exactly when the encoding is longer than the buffer, and writes the encoding
-- otherwise, for a value whose encoding and a buffer whose length are below 2 GiB.
pub serialize-encode :
    (v : Value) (len : ℕ)
    → length (encode v) < 2 ^ 31
    → len < 2 ^ 31
    → serialize len v ≡ fitting len (encode v)
serialize-encode v len h l = serialize_fits v len h l
