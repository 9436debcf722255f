-- ===== src/Device.antt =====
-- macdetectd/include/macdetectd/Device.h and macdetectd/src/Device.cpp: a network device.
pub mod Checksum
pub mod Verify
pub mod Ping
pub mod PingLaws
mod Tests
use macdetect.Base.{
  ℕ, ◌+◌, ◌-◌, ◌/◌, ◌%◌, Bool, false, Option, Text, ltb, str_eq, if◌then◌else◌, ◌++◌, ◌∷◌, List, [],
}
use macdetect.Doubles.{Doubles}

pub data HardwareType : Type 0 where
  loopback wired wireless : HardwareType

-- `none` is the value that `Network::deviceHardwareType` leaves open for a device it does not find.
pub record Device (D : Type 0) : Type 0 where
  pub device_name : Text
  pub hardware_type : Option HardwareType
  pub up : Bool
  pub running : Bool
  pub mac : Text
  pub ip : Text
  pub broadcast_ip : Text
  pub ping_broadcast_last_sent : D

-- A digit of `"%.2x"`.
hex_digit : ℕ → ℕ
hex_digit n = if ltb n 10 then b'0' + n else b'a' + (n - 10)

hex_byte : ℕ → Text
hex_byte n = hex_digit (n / 16) ∷ hex_digit (n % 16) ∷ []

-- The loops of `Device::mac` and of `Network::mac`: six bytes in hexadecimal, with colons between.
unfoldable pub mac_text : List ℕ → Text
unfolding hex_byte hex_digit
mac_text [] = []
mac_text (b ∷ []) = hex_byte b
mac_text (b ∷ c ∷ bs) = hex_byte b ++ (b':' ∷ mac_text (c ∷ bs))

module _ {D : Type 0} where
  -- The constructor.
  unfoldable pub make : Doubles D → Text → Option HardwareType → Device D
  make dbl name t = record {
    device_name = name;
    hardware_type = t;
    up = false;
    running = false;
    mac = [];
    ip = [];
    broadcast_ip = [];
    ping_broadcast_last_sent = dbl.zero;
  }

  -- `mac()`, at its first call, with the hardware address that the system gives: it is kept.
  unfoldable pub read_mac : Device D → List ℕ → Device D
  read_mac d address = record d { mac = if str_eq d.mac [] then mac_text address else d.mac }

  -- The decision of `sendPingBroadcast`, and the time that it stores.
  unfoldable pub send_ping_broadcast : Doubles D → Device D → D → D → Device D
  send_ping_broadcast dbl d time interval =
      if dbl.ge time (dbl.plus d.ping_broadcast_last_sent interval)
      then record d { ping_broadcast_last_sent = time }
      else d
