-- ===== src/Device/Ping.antt =====
-- `Device::sendPing` of macdetectd/src/Device.cpp: the frame of a ping.
use macdetect.Base.{
  ℕ, ◌+◌, ◌*◌, ◌/◌, ◌%◌, ◌^◌, Bool, false, not, ◌&&◌, List, [], ◌∷◌, ◌++◌, Option, some, Text, text,
  str_eq, if◌then◌else◌, ◌>>=◌,
}
use macdetect.Doubles.{Doubles}
use macdetect.Wire.{network16, wrap_in_ethernet_frame}
use macdetect.Device.Checksum.{le16, ip_header_checksum, icmp_header_checksum}
use macdetect.Device.{Device}

-- The library's functions on addresses (`inet_aton` gives the four bytes), the number of the process,
-- the milliseconds of the day, and whether a frame that is written is taken.
pub record Host : Type 0 where
  pub inet_aton : Text → Text
  pub ether_aton : Text → Option Text
  pub pid : ℕ
  pub milliseconds : ℕ
  pub written : Bool

-- The IP header in front of its checksum and behind it. `ihl` has four bits, so 21 is 5 there.
unfoldable pub ip_front : Text
unfolding network16 le16
ip_front = (4 * 16 + 21 % 16) ∷ 0 ∷ (network16 84 ++ (0 ∷ 0 ∷ (le16 0x0040 ++ (64 ∷ 1 ∷ []))))

unfoldable pub ip_back : Host → Text → Text → Text
ip_back host ip destination_ip = host.inet_aton ip ++ host.inet_aton destination_ip

unfoldable pub ip_header : Host → Text → Text → Text
unfolding ip_front ip_back
ip_header host ip destination_ip =
    let back = ip_back host ip destination_ip in
    ip_front ++ (le16 (ip_header_checksum (ip_front ++ (0 ∷ 0 ∷ back))) ++ back)

-- `htonl`
unfoldable pub network32 : ℕ → Text
network32 x = (x / 2 ^ 24 % 256) ∷ (x / 2 ^ 16 % 256) ∷ (x / 256 % 256) ∷ (x % 256) ∷ []

-- `ICMP_ECHO` and the code, and behind the checksum the process, the sequence and the times.
abbrev pub icmp_front : Text
icmp_front = 8 ∷ 0 ∷ []

unfoldable pub icmp_back : Host → Text
unfolding le16 network32
icmp_back host =
    le16 host.pid
    ++ (le16 12345 ++ (network32 host.milliseconds ++ (0 ∷ 0 ∷ 0 ∷ 0 ∷ 0 ∷ 0 ∷ 0 ∷ 0 ∷ [])))

unfoldable pub icmp_packet : Host → Text
unfolding icmp_back
icmp_packet host =
    let back = icmp_back host in
    icmp_front ++ (le16 (icmp_header_checksum (icmp_front ++ (0 ∷ 0 ∷ back))) ++ back)

-- `struct icmp` has 28 bytes, and the packet is the first 20 of them. `memcpy` writes all of them to
-- the end of `carrBufferPre`, which has room for 20: these ones go behind it.
abbrev pub icmp_behind : Text
icmp_behind = 0 ∷ 0 ∷ 0 ∷ 0 ∷ 0 ∷ 0 ∷ 0 ∷ 0 ∷ []

-- The frames that are written, the result, and the bytes that were written behind the end of
-- `carrBufferPre`; what these overwrite is left open, and the frame is what the code builds if it is
-- none of its variables.
pub record Sending : Type 0 where
  pub frames : List Text
  pub success : Bool
  pub behind : Text

abbrev pub not_sent : Sending
not_sent = record { frames = []; success = false; behind = [] }

module _ {D : Type 0} where
  -- `sendPing`. `none` is a null pointer that is followed.
  unfoldable pub send_ping : Host → Device D → Text → Text → Option Sending
  unfolding ip_header icmp_packet
  send_ping host d destination_ip destination_mac =
      let payload = ip_header host d.ip destination_ip ++ icmp_packet host in
      let sent =
        wrap_in_ethernet_frame host.ether_aton d.mac destination_mac 0x0800 payload >>= λ frame.
        some (record { frames = frame ∷ []; success = host.written; behind = icmp_behind }) in
      if not (str_eq d.ip []) && not (str_eq d.broadcast_ip []) then sent else some not_sent

  -- What `sendPingBroadcast` writes, and its result.
  unfoldable pub broadcast_frames : Doubles D → Host → Device D → D → D → Option Sending
  unfolding send_ping
  broadcast_frames dbl host d time interval =
      let sent = send_ping host d (text "255.255.255.255") (text "ff:ff:ff:ff:ff:ff") in
      if dbl.ge time (dbl.plus d.ping_broadcast_last_sent interval) then sent else some not_sent
