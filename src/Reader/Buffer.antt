-- ===== src/Reader/Buffer.antt =====
-- The buffer that `SocketReader::bufferedRead` of utils/src/SocketReader.cpp gives, from the side of
-- macdetectd/src/Network.cpp, which reads bytes from it.
use macdetect.Base.{
  ℕ, zero, suc, ◌-◌, ◌≤◌, [], ◌∷◌, ◌++◌, none, some, Text, length, length-append, take, take-length,
  ◌≡◌, refl, ap, arith,
}
use macdetect.Network.Activity.{byte}
use macdetect.Reader.{
  Recvfrom, taken, would_block, recv_error, bytes_of, read_result, SocketReader, zeros,
  buffered_read,
}

length-zeros : (n : ℕ) → length (zeros n) ≡ n
unfolding zeros
length-zeros zero = refl
length-zeros (suc n) = ap suc (length-zeros n)

byte-zeros : (n i : ℕ) → byte (zeros n) i ≡ 0
unfolding zeros byte
byte-zeros zero i = refl
byte-zeros (suc n) zero = refl
byte-zeros (suc n) (suc i) = byte-zeros n i

byte-append : (bytes : Text) (n i : ℕ) → byte (bytes ++ zeros n) i ≡ byte bytes i
unfolding byte
byte-append [] n i = byte-zeros n i
byte-append (b ∷ bytes) n zero = refl
byte-append (b ∷ bytes) n (suc i) = byte-append bytes n i

result_bound :
    (answer : Recvfrom) (n : ℕ)
    → length (bytes_of answer) ≤ n
    → (elim (read_result answer) [ none ↦ 0 | some m ↦ m ]) ≤ n
unfolding read_result
result_bound (taken []) n h = omega arith
result_bound (taken (b ∷ bytes)) n h = h
result_bound would_block n h = omega arith
result_bound recv_error n h = omega arith

-- The buffer has the length that was asked for, whatever the system answers, and the result is never
-- more than that; the bytes that came stand at its front, and a byte at any place behind them is
-- read as zero. The system gives no more bytes than were asked for.
pub buffered_read_bounds :
    (answer : Recvfrom) (r : SocketReader) (n i : ℕ)
    → length (bytes_of answer) ≤ n
    → (length (buffered_read answer r n).0.internal_buffer ≡ n)
      × ((elim (buffered_read answer r n).1 [ none ↦ 0 | some m ↦ m ]) ≤ n)
      × (take (length (bytes_of answer)) (buffered_read answer r n).0.internal_buffer
          ≡ bytes_of answer)
      × (byte (buffered_read answer r n).0.internal_buffer i ≡ byte (bytes_of answer) i)
unfolding buffered_read
buffered_read_bounds answer r n i h = (
  omega (
    arith,
    length-append (bytes_of answer) (zeros (n - length (bytes_of answer))),
    length-zeros (n - length (bytes_of answer)),
  ),
  result_bound answer n h,
  take-length (bytes_of answer) (zeros (n - length (bytes_of answer))),
  byte-append (bytes_of answer) (n - length (bytes_of answer)) i,
)
