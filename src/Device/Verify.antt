-- ===== src/Device/Verify.antt =====
-- A receiver that sums up a header with its checksum in it, as the functions of
-- macdetectd/src/Device.cpp do, gets nothing else than zero.
use macdetect.Base.{ℕ, ◌+◌, ◌*◌, ◌/◌, ◌%◌, ◌^◌, ◌<◌, [], ◌∷◌, ◌++◌, Text, All, ◌≡◌, refl, arith}
use macdetect.Device.Checksum.{
  swap16, le16, reduce, accumulate, complement, ip_header_checksum, add_words, fold,
  icmp_header_checksum,
}

abbrev pub IsByte : ℕ → Type 0
IsByte b = b < 256

-- The sum of the words in network order, without any limit.
unfoldable pub word_sum : Text → ℕ
word_sum [] = 0
word_sum (a ∷ []) = a * 256
word_sum (a ∷ b ∷ bs) = a * 256 + b + word_sum bs

-- The number from 1 to 65535 with the same remainder by 65535.
abbrev pub ones_complement : ℕ → ℕ
ones_complement n = (n + 65534) % 65535 + 1

reduce_lem :
    (acc w : ℕ) → 0 < acc → acc < 65536 → w < 65536 → reduce (acc + w) ≡ ones_complement (acc + w)
unfolding reduce
reduce_lem acc w p h k = ground arith

-- The accumulator never leaves the numbers from 1 to 65535, and it is the sum of all words in
-- ones' complement, the partial word at the end included.
pub accumulate_lem :
    (bytes : Text) (acc : ℕ)
    → All IsByte bytes
    → 0 < acc
    → acc < 65536
    → (accumulate acc bytes ≡ ones_complement (acc + word_sum bytes))
      × (0 < accumulate acc bytes)
      × (accumulate acc bytes < 65536)
unfolding accumulate word_sum
accumulate_lem [] acc h p k = omega arith
accumulate_lem (a ∷ []) acc h p k = omega (arith, reduce_lem acc (a * 256) p k (omega arith))
accumulate_lem (a ∷ b ∷ bs) acc h p k =
    let r = reduce_lem acc (a * 256 + b) p k (omega arith) in
    omega (
      arith,
      r,
      accumulate_lem bs (reduce (acc + (a * 256 + b))) h.1.1 (omega (arith, r)) (omega (arith, r)),
    )

-- Texts of an even length.
abbrev pub IsEven : Text → Type 0
IsEven [] = Unit {0}
IsEven (a ∷ []) = ⊥
IsEven (a ∷ b ∷ bs) = IsEven bs

word_sum-append : (xs ys : Text) → IsEven xs → word_sum (xs ++ ys) ≡ word_sum xs + word_sum ys
unfolding word_sum
word_sum-append [] ys e = omega arith
word_sum-append (a ∷ []) ys e = absurd e
word_sum-append (a ∷ b ∷ bs) ys e = omega (arith, word_sum-append bs ys e)

-- `All-append` needs no length.
pub bytes-append : (xs ys : Text) → All IsByte xs → All IsByte ys → All IsByte (xs ++ ys)
bytes-append [] ys h k = k
bytes-append (x ∷ xs) ys h k = (h.0, bytes-append xs ys h.1 k)

-- An IP header whose checksum was computed with zeros in its place, and then put there in the order
-- of the machine, has the checksum zero. The bytes in front of the place are even in number.
pub ip_header_checksum_verifies :
    (front back : Text)
    → All IsByte front
    → All IsByte back
    → IsEven front
    → ip_header_checksum (front ++ (le16 (ip_header_checksum (front ++ (0 ∷ 0 ∷ back))) ++ back))
      ≡ 0
unfolding ip_header_checksum swap16 le16
ip_header_checksum_verifies front back h k e =
    let empty = front ++ (0 ∷ 0 ∷ back) in
    let s = accumulate 0xffff empty in
    let sum =
      accumulate_lem empty 0xffff
        (bytes-append front (0 ∷ 0 ∷ back) h (omega arith, (omega arith, k))) (omega arith)
        (omega arith) in
    let hi = swap16 (complement s) % 256 in
    let lo = swap16 (complement s) / 256 % 256 in
    let whole = front ++ (hi ∷ lo ∷ back) in
    let sum' =
      accumulate_lem whole 0xffff
        (bytes-append front (hi ∷ lo ∷ back) h (omega arith, (omega arith, k))) (omega arith)
        (omega arith) in
    let words = word_sum-append front (0 ∷ 0 ∷ back) e in
    let words' = word_sum-append front (hi ∷ lo ∷ back) e in
    let total : accumulate 0xffff whole ≡ 65535 = unfold word_sum in omega arith in rw total

add_words-acc : (bytes : Text) (sum : ℕ) → add_words sum bytes ≡ sum + add_words 0 bytes
unfolding add_words
add_words-acc [] sum = omega arith
add_words-acc (a ∷ []) sum = omega arith
add_words-acc (a ∷ b ∷ bs) sum =
    omega (arith, add_words-acc bs (sum + (a + b * 256)), add_words-acc bs (0 + (a + b * 256)))

add_words-append :
    (xs ys : Text) → IsEven xs → add_words 0 (xs ++ ys) ≡ add_words 0 xs + add_words 0 ys
unfolding add_words
add_words-append [] ys e = omega arith
add_words-append (a ∷ []) ys e = absurd e
add_words-append (a ∷ b ∷ bs) ys e = omega (
  arith,
  add_words-acc bs (0 + (a + b * 256)),
  add_words-acc (bs ++ ys) (0 + (a + b * 256)),
  add_words-append bs ys e,
)

-- An ICMP packet whose checksum was computed with zeros in its place, and then put there, has the
-- checksum zero. The bytes in front of the place are even in number, and the sum of the words stays
-- below 2 ^ 31 - 65535, so that no `int` overflows.
pub icmp_header_checksum_verifies :
    (front back : Text)
    → IsEven front
    → add_words 0 (front ++ back) + 65535 < 2 ^ 31
    → icmp_header_checksum
        (front ++ (le16 (icmp_header_checksum (front ++ (0 ∷ 0 ∷ back))) ++ back))
      ≡ 0
unfolding icmp_header_checksum le16
icmp_header_checksum_verifies front back e h =
    let empty = front ++ (0 ∷ 0 ∷ back) in
    let c = icmp_header_checksum empty in
    let lo = c % 256 in
    let hi = c / 256 % 256 in
    let whole = front ++ (lo ∷ hi ∷ back) in
    let parts = add_words-append front back e in
    let zeros = add_words-append front (0 ∷ 0 ∷ back) e in
    let checked = add_words-append front (lo ∷ hi ∷ back) e in
    let zeros' : add_words 0 (0 ∷ 0 ∷ back) ≡ add_words 0 back = unfold add_words in refl in
    let checked' : add_words 0 (lo ∷ hi ∷ back) ≡ c + add_words 0 back =
      unfold add_words in omega (arith, add_words-acc back (0 + (lo + hi * 256))) in
    unfold fold in omega arith
