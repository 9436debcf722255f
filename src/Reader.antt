-- ===== src/Reader.antt =====
-- utils/src/SocketReader.cpp, and utils/src/MulticastEndpoint.cpp, which reads in the same way.
pub mod Buffer
mod Tests
use macdetect.Base.{
  ℕ, zero, suc, ◌-◌, Bool, true, false, ◌&&◌, List, [], ◌∷◌, ◌++◌, Option, none, some, Text, length,
  if◌then◌else◌,
}

-- What `recvfrom` answers: bytes, also none, or -1, with `EWOULDBLOCK` or with another error.
pub data Recvfrom : Type 0 where
  taken : Text → Recvfrom
  would_block : Recvfrom
  recv_error : Recvfrom

-- The bytes that are put into the buffer.
abbrev pub bytes_of : Recvfrom → Text
bytes_of (taken bytes) = bytes
bytes_of would_block = []
bytes_of recv_error = []

-- The result of `read`; `none` is -1.
unfoldable pub read_result : Recvfrom → Option ℕ
read_result (taken []) = none
read_result (taken (b ∷ bytes)) = some (length (b ∷ bytes))
read_result would_block = some 0
read_result recv_error = none

pub record SocketReader : Type 0 where
  pub default_reading_length : ℕ
  pub internal_buffer : Text
  pub socket : ℕ

unfoldable pub zeros : ℕ → Text
zeros zero = []
zeros (suc n) = 0 ∷ zeros n

-- `bufferedRead(ucBuffer, nReadingLength)`: the reader with its new buffer, which is filled with
-- zeros first, and the result.
unfoldable pub buffered_read : Recvfrom → SocketReader → ℕ → SocketReader × Option ℕ
unfolding read_result zeros
buffered_read answer r reading_length = (
  record r {
    internal_buffer = bytes_of answer ++ zeros (reading_length - length (bytes_of answer));
  },
  read_result answer,
)

-- `bufferedRead(ucBuffer)`, as `Device::read` calls it with the default length.
unfoldable pub default_read : Recvfrom → SocketReader → SocketReader × Option ℕ
unfolding buffered_read
default_read answer r = buffered_read answer r r.default_reading_length

unfoldable pub set_socket : SocketReader → ℕ → SocketReader
set_socket r fd = record r { socket = fd }

unfoldable pub set_default_reading_length : SocketReader → ℕ → SocketReader
set_default_reading_length r n = record r { default_reading_length = n }

-- What the system answers to the constructor of a multicast endpoint: the socket, and whether each
-- call works.
pub record GroupAnswers : Type 0 where
  pub new_socket : Option ℕ
  pub reuses : Bool
  pub loops : Bool
  pub binds : Bool
  pub joins : Bool

-- `MulticastEndpoint::MulticastEndpoint`; `none` is the socket -1.
unfoldable pub multicast_endpoint : GroupAnswers → Option ℕ
multicast_endpoint env =
    if env.reuses && (env.loops && (env.binds && env.joins)) then env.new_socket else none

-- `ok`
unfoldable pub is_ok : Option ℕ → Bool
is_ok none = false
is_ok (some fd) = true
