-- ===== src/Packet/Receive.antt =====
-- `PacketEntity::receive` of utils/src/PacketEntity.cpp takes one value off the socket.
use macdetect.Base.{
  ℕ, zero, suc, ◌+◌, ◌-◌, ◌*◌, ◌^◌, ◌≤◌, ◌<◌, ◌≡◌, refl, Bool, [], some, Text, length,
  length-append, length-take, take, take_all, take-append-drop, false, ◌∷◌, drop, ◌==◌, ◌++◌, arith,
  Bool-cases, inl, inr, append_assoc, sym, ap, ◌∙◌,
}
use macdetect.Value.{Value}
use macdetect.Value.Encode.{encode, le-length-encode}
use macdetect.Value.RoundTrip.{deserialize-encode}
use macdetect.Packet.{
  memory, PacketEntity, Recv, received, Receipt, done, peek_loop, read_buffer, take_in, receive,
}

-- A socket on which `pending` waits, while the loop runs: a call gives as much as the buffer holds.
abbrev pub waiting : Text → ℕ → ℕ → Recv
waiting pending i n = received (take n pending)

peek_loop-last :
    (pending : Text) (f i size : ℕ)
    → length pending < size + 2048
    → peek_loop (waiting pending) (suc f) i size ≡ some (size + 2048, received pending)
unfolding peek_loop
peek_loop-last pending f i size h =
    let taken = length-take (size + 2048) pending in
    let part : (length (take (size + 2048) pending) == size + 2048) ≡ false =
      ground (arith, taken, h) in
    rw (part, peek_loop, take_all (size + 2048) pending (omega (arith, h)))

peek_loop-waiting :
    (pending : Text) (f i size : ℕ)
    → size ≤ length pending
    → length pending < size + 2048 * f
    → (n : ℕ) × (length pending < n)
      × (peek_loop (waiting pending) f i size ≡ some (n, received pending))
unfolding peek_loop
peek_loop-waiting pending zero i size s h = absurd (omega arith)
peek_loop-waiting pending (suc f) i size s h =
    let taken = length-take (size + 2048) pending in
    elim (Bool-cases (length (take (size + 2048) pending) == size + 2048)) [
      | inl full ↦
          let (n, le, e) =
            peek_loop-waiting pending f (i + 1) (size + 2048) (ground arith) (omega arith) in
          (n, le, rw (full, peek_loop) e)
      | inr part ↦
          let short : length pending < size + 2048 = ground arith in
          (size + 2048, short, peek_loop-last pending f i size short)
    ]

abbrev pub receipt : PacketEntity → Bool → Value → ℕ → Receipt
receipt p d v n = record { entity = p; disconnected = d; value = some v; used = n }

read_buffer-encode :
    (p : PacketEntity) (d : Bool) (v : Value) (r : Text)
    → length (encode v) < 2 ^ 31
    → read_buffer p d (encode v ++ r) ≡ done (receipt p d v (length (encode v)))
unfolding read_buffer
read_buffer-encode p d v r h =
    let same : length (encode v ++ r) - length r ≡ length (encode v) =
      omega (arith, length-append (encode v) r) in
    rw (read_buffer, deserialize-encode v r h, same)

take_in-waiting :
    (a : Text) (fresh : ℕ → ℕ → ℕ) (p : PacketEntity) (d : Bool) (n : ℕ)
    → 0 < length a
    → take_in fresh p d n (received a) ≡ read_buffer p d (a ++ drop (length a) (memory n (fresh n)))
unfolding take_in
take_in-waiting [] fresh p d n h = absurd (omega arith)
take_in-waiting (b ∷ bytes) fresh p d n h = refl

-- If the encoding of a value is at the front of what waits, `receive` gives this value, takes just
-- its bytes out of the socket, and changes neither the failure state nor the flag; so what waited
-- behind it waits for the next call. The encoding is shorter than 2 GiB, and the fuel is more than the
-- number of bytes that wait.
pub receive-encode :
    (v : Value) (rest : Text) (fresh : ℕ → ℕ → ℕ) (f : ℕ) (p : PacketEntity) (d : Bool)
    → length (encode v) < 2 ^ 31
    → length (encode v ++ rest) < f
    → receive (waiting (encode v ++ rest)) fresh f p d
      ≡ some (done (receipt p d v (length (encode v))))
unfolding receive
receive-encode v rest fresh f p d h k =
    let a = encode v ++ rest in
    let some_bytes : 0 < length a =
      omega (arith, length-append (encode v) rest, le-length-encode v) in
    let (n, le, e) = peek_loop-waiting a f 0 0 (omega arith) (omega arith) in
    rw e (
      ap some (
        take_in-waiting a fresh p d n some_bytes
        ∙ ap (read_buffer p d) (append_assoc (encode v) rest _)
        ∙ read_buffer-encode p d v _ h))

-- `receive` hands the whole buffer of 2048 bytes to `deserialize`, not the bytes that came: if only a
-- front part of an encoding waits, at least a byte and less than a buffer, and the fresh memory holds
-- the other part at this place, the value is completed from it, and more bytes are asked of the socket
-- than it has. The encoding is shorter than 2 GiB, and the loop has fuel for one round.
pub receive_partial :
    (a b : Text) (v : Value) (fresh : ℕ → ℕ → ℕ) (f : ℕ) (p : PacketEntity) (d : Bool)
    → encode v ≡ a ++ b
    → 0 < length a
    → 0 < length b
    → length a < 2048
    → take (length b) (drop (length a) (memory 2048 (fresh 2048))) ≡ b
    → length (encode v) < 2 ^ 31
    → 0 < f
    → (receive (waiting a) fresh f p d ≡ some (done (receipt p d v (length (encode v)))))
      × (length a < length (encode v))
unfolding receive
receive_partial a b v fresh zero p d e came more fits held h k = absurd (omega arith)
receive_partial a b v fresh (suc f) p d e came more fits held h k =
    let left = drop (length a) (memory 2048 (fresh 2048)) in
    let behind = drop (length b) left in
    let splits : left ≡ b ++ behind =
      sym (take-append-drop (length b) left) ∙ ap (λ l. l ++ behind) held in
    let whole : a ++ left ≡ encode v ++ behind =
      ap (◌++◌ a) splits ∙ sym (append_assoc a b behind) ∙ ap (λ l. l ++ behind) (sym e) in
    (
      rw (peek_loop-last a f 0 0 fits) (
          ap some (
            take_in-waiting a fresh p d 2048 came
            ∙ ap (read_buffer p d) whole
            ∙ read_buffer-encode p d v behind h)),
      omega (arith, ap length e, length-append a b),
    )
