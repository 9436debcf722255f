-- ===== src/Packet/Tests.antt =====
-- The laws of utils/src/PacketEntity.cpp on a small value, with a `write` that takes one byte in each
-- call, and with memory that holds the end of an older value.
use macdetect.Base.{
  get_elem?, List, none, ℕ, zero, suc, ◌≤◌, ◌<◌, ◌≡◌, [], ◌∷◌, refl, arith, some, true, false, text,
  length, take, drop, ◌==◌,
}
use macdetect.Value.{Value, value, nil, size}
use macdetect.Value.Wire.{le32}
use macdetect.Value.Encode.{encode}
use macdetect.Packet.{memory, PacketEntity, done, send, receive}
use macdetect.Packet.Channel.{
  Action, put, get, sent, taken, channel, act_each, queue_each, act_each-queue_each,
}
use macdetect.Packet.Send.{Bounded, Progress, send-prefix, send-encode}
use macdetect.Packet.Receive.{waiting, receipt, receive_partial}

abbrev message : Value
message = value (text "a") (text "b") nil

abbrev one_byte : ℕ → ℕ → ℕ
one_byte i zero = 0
one_byte i (suc n) = 1

one_byte-Bounded : Bounded one_byte
one_byte-Bounded i zero = omega arith
one_byte-Bounded i (suc n) = omega arith

one_byte-Progress : Progress one_byte
one_byte-Progress i zero h = h
one_byte-Progress i (suc n) h = omega arith

abbrev peer : PacketEntity
peer = record { socket = 5; failure_state = false }

send-prefix_example :
    (n : ℕ) × (n ≤ length (encode message))
    × (send one_byte 20 message ≡ some (take n (encode message), n == length (encode message)))
unfolding encode le32 size text
send-prefix_example = send-prefix one_byte 20 message one_byte-Bounded (omega arith) (omega arith)

send-encode_example : send one_byte 20 message ≡ some (encode message, true)
unfolding encode le32 size text
send-encode_example =
    send-encode one_byte 20 message one_byte-Bounded (omega arith) (omega arith) one_byte-Progress

-- The memory holds the whole value from a call before.
-- Fresh memory that holds, in a buffer of 2048 bytes, the encoding.
abbrev held : ℕ → ℕ → ℕ
held n i = elim (get_elem? (encode message) i) [ some b ↦ b | none ↦ 0 ]

receive_partial_example :
    (receive (waiting (take 13 (encode message))) held 1 peer false
      ≡ some (done (receipt peer false message (length (encode message)))))
    × (13 < length (encode message))
unfolding encode le32 size text memory
receive_partial_example =
    receive_partial (take 13 (encode message)) (drop 13 (encode message)) message held 1 peer false
      refl (omega arith) (omega arith) (omega arith) refl (omega arith) (omega arith)

-- A value is sent and another one; three calls of `receive` give them and none.
abbrev answer : Value
answer = value (text "c") [] nil

abbrev actions : List Action
actions = put one_byte message ∷ get ∷ put one_byte answer ∷ get ∷ get ∷ []

act_each-queue_each_example :
    act_each (λ n i. 0) 60 (channel peer []) actions
    ≡ some (
      channel peer [],
      sent true ∷ taken (some message) ∷ sent true ∷ taken (some answer) ∷ taken none ∷ [],
    )
unfolding encode le32 size text queue_each
act_each-queue_each_example =
    act_each-queue_each (λ n i. 0) 60 peer [] actions tt
      (
        (one_byte-Bounded, one_byte-Progress, omega arith),
        (tt, ((one_byte-Bounded, one_byte-Progress, omega arith), (tt, (tt, tt)))),
      )
      (omega arith)
