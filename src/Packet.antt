-- ===== src/Packet.antt =====
-- utils/src/PacketEntity.cpp: values over a socket. The calls of the operating system, which the
-- discovery classes replace by those of a multicast socket, are parameters; the lock is left out,
-- since it is held during the whole of each operation.
pub mod Send
pub mod Receive
pub mod Channel
mod Tests
use macdetect.Base.{
  ℕ, zero, suc, ◌+◌, ◌-◌, Bool, true, false, [], ◌∷◌, Option, none, some, Text, length, take, drop,
  ltb, ◌==◌, ◌++◌, if◌then◌else◌, ◌>>=◌, ◌||◌,
}
use macdetect.Value.{Value}
use macdetect.Value.Wire.{serialize, deserialize}

pub record PacketEntity : Type 0 where
  pub socket : ℕ
  pub failure_state : Bool

-- `setSocket`
unfoldable pub set_socket : PacketEntity → ℕ → PacketEntity
set_socket p fd = record p { socket = fd }

-- The first loop of `send`: a buffer that is 2048 bytes longer each time, until the value fits.
-- `none`: the fuel is used up.
unfoldable pub grow : ℕ → ℕ → Value → Option Text
grow zero size v = none
grow (suc f) size v = elim (serialize (size + 2048) v) [
  | some bytes ↦ some bytes
  | none ↦ grow f (size + 2048) v
]

-- The second loop. `write i n` is how many of `n` bytes the `i`-th call of `write` takes, 0 for a
-- result that is not positive. The result is `nSentBytes`, behind the bytes that were handed over.
unfoldable pub write_loop : (ℕ → ℕ → ℕ) → ℕ → ℕ → Text → Text → ℕ → Option (Text × ℕ)
write_loop write zero i bytes out sent = none
write_loop write (suc f) i bytes out sent =
    let taken = write i (length bytes - sent) in
    let rest =
      write_loop write f (i + 1) bytes (out ++ take taken (drop sent bytes)) (sent + taken) in
    if ltb sent (length bytes)
    then if taken == 0 then some (out, sent) else rest
    else some (out, sent)

-- The bytes that went out, and the result of `send`.
unfoldable pub send : (ℕ → ℕ → ℕ) → ℕ → Value → Option (Text × Bool)
send write f v = do
  bytes ← grow f 0 v
  (out, sent) ← write_loop write f 0 bytes [] 0
  some (out, sent == length bytes)

-- What a call of `recv` gives: bytes, the end of the stream (0), or an error (-1), which is
-- transient if `errno` is `EAGAIN` or `EWOULDBLOCK`.
pub data Recv : Type 0 where
  received : Text → Recv
  closed : Recv
  failed : (transient : Bool) → Recv

-- The loop of `receive`, which peeks with a larger buffer until the bytes do not fill it. The result
-- is the size of the buffer and the last answer.
unfoldable pub peek_loop : (ℕ → ℕ → Recv) → ℕ → ℕ → ℕ → Option (ℕ × Recv)
peek_loop peek zero i size = none
peek_loop peek (suc f) i size = elim (peek i (size + 2048)) [
  | received bytes ↦ elim (length bytes == size + 2048) [
    | true ↦ peek_loop peek f (i + 1) (size + 2048)
    | false ↦ some (size + 2048, received bytes)
  ]
  | closed ↦ some (size + 2048, closed)
  | failed t ↦ some (size + 2048, failed t)
]

-- The entity and the flag `bDisconnected` after the call, the value, and how many of the peeked
-- bytes the second `recv` takes out of the socket.
pub record Receipt : Type 0 where
  pub entity : PacketEntity
  pub disconnected : Bool
  pub value : Option Value
  pub used : ℕ

-- `overrun`: `deserialize` reads behind the end of the buffer.
pub data Outcome : Type 0 where
  done : Receipt → Outcome
  overrun : Outcome

nothing : PacketEntity → Bool → Receipt
nothing p d = record { entity = p; disconnected = d; value = none; used = 0 }

lost : PacketEntity → Receipt
lost p = record {
  entity = record p { failure_state = true };
  disconnected = true;
  value = none;
  used = 0;
}

read_buffer : PacketEntity → Bool → Text → Outcome
read_buffer p d buffer = elim (deserialize buffer) [
  | none ↦ overrun
  | some (v, r) ↦
      done
        (record { entity = p; disconnected = d; value = some v; used = length buffer - length r })
]

-- `new unsigned char[n]`: as many bytes as were asked for, which the memory holds there.
unfoldable pub memory : ℕ → (ℕ → ℕ) → Text
memory zero held = []
memory (suc n) held = held 0 ∷ memory n (λ i. held (suc i))

-- The branches behind the loop; no bytes are the end of the stream. The `i`-th byte of a fresh buffer
-- of `n` bytes is `fresh n i`; the peeked bytes stand over its front, and `deserialize` is given the
-- whole buffer.
unfoldable pub take_in : (ℕ → ℕ → ℕ) → PacketEntity → Bool → ℕ → Recv → Outcome
unfolding nothing lost read_buffer
take_in fresh p d size (failed transient) = done (if transient then nothing p d else lost p)
take_in fresh p d size closed = done (lost p)
take_in fresh p d size (received []) = done (lost p)
take_in fresh p d size (received (b ∷ bytes)) =
    let came = b ∷ bytes in read_buffer p d (came ++ drop (length came) (memory size (fresh size)))

unfoldable pub receive : (ℕ → ℕ → Recv) → (ℕ → ℕ → ℕ) → ℕ → PacketEntity → Bool → Option Outcome
unfolding take_in
receive peek fresh f p d = do
  (size, answer) ← peek_loop peek f 0 0
  some (take_in fresh p d size answer)
