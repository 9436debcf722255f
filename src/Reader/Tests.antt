-- ===== src/Reader/Tests.antt =====
-- The law of utils/src/SocketReader.cpp on a short frame.
use macdetect.Base.{◌≤◌, [], ◌∷◌, none, some, length, take, ◌≡◌, arith}
use macdetect.Network.Activity.{byte}
use macdetect.Reader.{Recvfrom, taken, bytes_of, SocketReader, buffered_read}
use macdetect.Reader.Buffer.{buffered_read_bounds}

abbrev reader : SocketReader
reader = record { default_reading_length = 8; internal_buffer = []; socket = 3 }

abbrev answer : Recvfrom
answer = taken (255 ∷ 254 ∷ 253 ∷ [])

buffered_read_bounds_example :
    (length (buffered_read answer reader 8).0.internal_buffer ≡ 8)
    × ((elim (buffered_read answer reader 8).1 [ none ↦ 0 | some m ↦ m ]) ≤ 8)
    × (take 3 (buffered_read answer reader 8).0.internal_buffer ≡ bytes_of answer)
    × (byte (buffered_read answer reader 8).0.internal_buffer 5 ≡ byte (bytes_of answer) 5)
buffered_read_bounds_example = buffered_read_bounds answer reader 8 5 (omega arith)
