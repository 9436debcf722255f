-- ===== src/Client.antt =====
-- client/src/Client.cpp and client/src/MDClient.cpp: the client library.
pub mod Laws
pub mod Requests
pub mod Reading
mod Tests
mod ReadingTests
use macdetect.Base.{
  ℕ, zero, suc, ◌+◌, Bool, true, false, not, ◌&&◌, ◌||◌, List, [], ◌∷◌, Option, none, some, Text,
  text, if◌then◌else◌,
}
use macdetect.Value.{Value, value, nil, add, make}

-- The packet entity of a client; `none` is the socket -1.
pub record Client : Type 0 where
  pub socket : Option ℕ
  pub failure_state : Bool

-- The constructor.
abbrev pub new_client : Client
new_client = record { socket = none; failure_state = false }

unfoldable pub connected : Client → Bool
connected c = elim c.socket [ none ↦ false | some fd ↦ true ]

-- `disconnect`: the client after it, and the result.
unfoldable pub disconnect : Client → Client × Bool
unfolding connected
disconnect c = if connected c then (record c { socket = none }, true) else (c, false)

-- `connect`, with the socket that the system gives, and whether its `connect` works.
unfoldable pub connect : Option ℕ → Bool → Client → Client × Bool
unfolding connected disconnect
connect new_socket works c =
    let closed = if connected c then (disconnect c).0 else c in
    (record closed { socket = new_socket }, elim new_socket [ none ↦ false | some fd ↦ works ])

-- What a call of `PacketEntity::receive` gives: the value, and whether it sets the flag.
pub record Reception : Type 0 where
  pub value : Option Value
  pub disconnected : Bool

-- The loop of `MDClient::receive`. `calls i` is what the `i`-th call gives; the result is the value,
-- the flag, and the number of the calls. `none`: the fuel is used up.
unfoldable pub receive_from : ℕ → (ℕ → Reception) → Bool → ℕ → Option (Option Value × Bool × ℕ)
receive_from zero calls blocks i = none
receive_from (suc f) calls blocks i =
    let again = receive_from f calls blocks (i + 1) in
    if (calls i).disconnected then some ((calls i).value, true, i + 1) else (elim (calls i).value [
      | some v ↦ some (some v, false, i + 1)
      | none ↦ if blocks then again else some (none, false, i + 1)
    ])

-- `MDClient::receive`
unfoldable pub receive : ℕ → (ℕ → Reception) → Bool → Option (Option Value × Bool × ℕ)
unfolding receive_from
receive f calls blocks = receive_from f calls blocks 0

-- What the requests send.
abbrev pub request_device_names : Value
request_device_names = make (text "request") (text "devices-list") []

abbrev pub request_known_mac_addresses : Value
request_known_mac_addresses = make (text "request") (text "known-mac-addresses") []

unfoldable pub request_enable_stream : Text → Value
request_enable_stream name =
    add (make (text "request") (text "enable-stream") []) (make (text "device-name") name [])

unfoldable pub request_disable_stream : Text → Value
request_disable_stream name =
    add (make (text "request") (text "disable-stream") []) (make (text "device-name") name [])
