-- ===== src/Wire.antt =====
-- macdetectd/src/Wire.cpp: raw frames. The sockets are not modelled but by their answers, and
-- `ether_aton` is an argument: the six bytes of an address, or `none` for a null pointer, which the
-- code follows.
use macdetect.Base.{
  ℕ, ◌/◌, ◌%◌, Bool, true, false, ◌&&◌, [], ◌∷◌, ◌++◌, Option, none, some, Text, str_eq, ◌==◌,
  if◌then◌else◌, ◌>>=◌,
}

-- `htons(x)` in memory: the high byte first.
unfoldable pub network16 : ℕ → Text
network16 x = (x / 256 % 256) ∷ (x % 256) ∷ []

-- `wrapInEthernetFrame`: the receiver, the sender and the type, and the payload behind them.
unfoldable pub wrap_in_ethernet_frame : (Text → Option Text) → Text → Text → ℕ → Text → Option Text
wrap_in_ethernet_frame ether_aton source_mac destination_mac ether_type payload = do
  source ← ether_aton source_mac
  destination ← ether_aton destination_mac
  some (destination ++ (source ++ (network16 ether_type ++ payload)))

pub record Wire : Type 0 where
  pub device_name : Text
  pub protocol : ℕ
  pub socket : Option ℕ

-- What the system answers in `createSocket`: the socket, and whether each call works.
pub record SocketAnswers : Type 0 where
  pub new_socket : Option ℕ
  pub index_found : Bool
  pub address_found : Bool
  pub bound : Bool

-- `createSocket`; `none` is -1. The address that the system gives is one that `ether_aton` reads.
unfoldable pub create_socket : SocketAnswers → Text → Option ℕ
create_socket env device_name = elim env.new_socket [
  | none ↦ none
  | some fd ↦
      if str_eq device_name []
      then some fd
      else if env.index_found && (env.address_found && env.bound)
      then some fd
      else none
]

-- The constructor.
unfoldable pub make : SocketAnswers → Text → ℕ → Wire
unfolding create_socket
make env device_name protocol = record {
  device_name = device_name;
  protocol = protocol;
  socket = create_socket env device_name;
}

-- `write(vdBuffer, unLength, usProtocol)`: the socket that is written to, and the result. `writes`
-- tells whether the system takes the bytes.
unfoldable pub write : SocketAnswers → (Option ℕ → Bool) → Wire → ℕ → Option ℕ × Bool
unfolding create_socket
write env writes w protocol =
    let fd = if protocol == w.protocol then w.socket else create_socket env w.device_name in
    (fd, writes fd)

-- `Network::privilegesSuffice`, which asks for a socket without a device.
unfoldable pub privileges_suffice : SocketAnswers → Bool
unfolding create_socket
privileges_suffice env = elim (create_socket env []) [ some fd ↦ true | none ↦ false ]
