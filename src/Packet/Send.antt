-- ===== src/Packet/Send.antt =====
-- `PacketEntity::send` of utils/src/PacketEntity.cpp hands over the encoding of the value.
use macdetect.Base.{
  ℕ, zero, suc, ◌+◌, ◌-◌, ◌*◌, ◌^◌, ◌≤◌, ◌<◌, ◌≡◌, true, [], some, Text, length, take, take_all, ap,
  ◌∷◌, drop, ltb, ◌==◌, ◌++◌, arith, Bool-cases, inl, inr,
}
use macdetect.Value.{Value}
use macdetect.Value.Encode.{encode, serialize-encode}
use macdetect.Packet.{grow, write_loop, send}

-- The buffer grows until the encoding fits.
grow-encode :
    (f size : ℕ) (v : Value)
    → size ≤ length (encode v)
    → length (encode v) < size + 2048 * f
    → length (encode v) + 2048 < 2 ^ 31
    → grow f size v ≡ some (encode v)
unfolding grow
grow-encode zero size v s h k = absurd (omega arith)
grow-encode (suc f) size v s h k =
    rw (serialize-encode v (size + 2048) (omega arith) (omega arith), grow)
      (elim (Bool-cases (ltb (size + 2048) (length (encode v)))) [
        | inl short ↦ rw short (grow-encode f (size + 2048) v (ground arith) (omega arith) k)
        | inr fits ↦ rw fits
      ])

take-add : (a b : ℕ) (xs : Text) → take a xs ++ take b (drop a xs) ≡ take (a + b) xs
take-add zero b xs = ground arith
take-add (suc a) zero [] = let e : suc a + 0 ≡ suc a = omega arith in rw e
take-add (suc a) (suc b) [] = let e : suc a + suc b ≡ suc (a + suc b) = omega arith in rw e
take-add (suc a) b (x ∷ xs) =
    let e : suc a + b ≡ suc (a + b) = omega arith in rw e (ap (◌∷◌ x) (take-add a b xs))

-- A call of `write` takes no more bytes than it is given.
abbrev pub Bounded : (ℕ → ℕ → ℕ) → Type 0
Bounded write = (i n : ℕ) → write i n ≤ n

-- A call of `write` takes a byte or more.
abbrev pub Progress : (ℕ → ℕ → ℕ) → Type 0
Progress write = (i n : ℕ) → 0 < n → 0 < write i n

write_loop-prefix :
    (write : ℕ → ℕ → ℕ) (bytes : Text)
    → Bounded write
    → (f i sent : ℕ) → sent ≤ length bytes
    → length bytes < sent + f
    → (n : ℕ) × (n ≤ length bytes)
      × (write_loop write f i bytes (take sent bytes) sent ≡ some (take n bytes, n))
      × (Progress write → n ≡ length bytes)
unfolding write_loop
write_loop-prefix write bytes bound zero i sent s h = absurd (omega arith)
write_loop-prefix write bytes bound (suc f) i sent s h =
    elim (Bool-cases (ltb sent (length bytes))) [
      | inr over ↦ (sent, s, rw over, λ _. ground arith)
      | inl more ↦ elim (Bool-cases (write i (length bytes - sent) == 0)) [
        | inl stopped ↦
            (sent, s, rw (more, stopped), λ p. ground (arith, p i (length bytes - sent)))
        | inr taken ↦
            let b = bound i (length bytes - sent) in
            let (n, le, e, full) =
              write_loop-prefix write bytes bound f (i + 1) (sent + write i (length bytes - sent))
                (ground arith) (ground arith) in
            (n, le, rw (more, taken, take-add sent (write i (length bytes - sent)) bytes) e, full)
      ]
    ]

module _ (write : ℕ → ℕ → ℕ) (f : ℕ) (v : Value) (bound : Bounded write)
    (fuel : length (encode v) < f) (short : length (encode v) + 2048 < 2 ^ 31) where
  -- What goes out is a front part of the encoding of the value, whatever `write` takes in each call,
  -- and the result is true exactly when this is all of it. Each call takes no more than it is given,
  -- the encoding is 2 KiB shorter than 2 GiB, and its length is fuel enough.
  pub send-prefix :
      (n : ℕ) × (n ≤ length (encode v))
      × (send write f v ≡ some (take n (encode v), n == length (encode v)))
  unfolding send
  send-prefix =
      let (n, le, e, full) =
        write_loop-prefix write (encode v) bound f 0 0 (omega arith) (omega arith) in
      (n, le, rw (grow-encode f 0 v (omega arith) (omega arith) short, e))

  -- If every call of `write` takes a byte or more, and no more than it is given, `send` ends with all
  -- of the encoding sent, and returns true. The encoding is 2 KiB shorter than 2 GiB, and its length
  -- is fuel enough.
  pub send-encode : Progress write → send write f v ≡ some (encode v, true)
  unfolding send
  send-encode p =
      let (n, le, e, full) =
        write_loop-prefix write (encode v) bound f 0 0 (omega arith) (omega arith) in
      rw
        (
          grow-encode f 0 v (omega arith) (omega arith) short,
          e,
          full p,
          take_all (length (encode v)) (encode v) (omega arith),
        )
        (ground arith)
