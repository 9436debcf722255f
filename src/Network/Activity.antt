-- ===== src/Network/Activity.antt =====
-- `Network::detectNetworkActivity` of macdetectd/src/Network.cpp: a frame from each known device.
use macdetect.Base.{
  ℕ, ◌+◌, ◌*◌, Bool, true, List, [], ◌∷◌, map, Option, none, some, Text, text, get_elem?, length,
  leb, ◌==◌, if◌then◌else◌,
}
use macdetect.Doubles.{Doubles}
use macdetect.Device.{Device, mac_text}
use macdetect.Network.System.{System}
use macdetect.Network.Macs.{add_mac, ip_allowed}
use macdetect.Network.Evidence.{update_mac_evidence, check_hostnames}
use macdetect.Network.{Network}

-- The bytes that were read, or none of them after an error. The buffer is filled with zeros first,
-- and is longer than the headers.
abbrev pub buffer_of : Option Text → Text
buffer_of none = []
buffer_of (some bytes) = bytes

unfoldable pub byte : Text → ℕ → ℕ
byte buffer i = elim (get_elem? buffer i) [ none ↦ 0 | some b ↦ b ]

-- `nLengthRead >= sizeof(struct ethhdr)`: the length is an `int` and the size is a `size_t`, so -1
-- is converted to the largest `size_t`.
unfoldable pub has_header : Option Text → Bool
has_header none = true
has_header (some bytes) = leb 14 (length bytes)

-- `mac(efhHeader.h_source)`
unfoldable pub source_mac : Text → Text
unfolding byte
source_mac buffer = mac_text (map (byte buffer) (6 ∷ 7 ∷ 8 ∷ 9 ∷ 10 ∷ 11 ∷ []))

unfoldable pub ether_type : Text → ℕ
unfolding byte
ether_type buffer = 256 * byte buffer 12 + byte buffer 13

module _ {D : Type 0} where
  -- `iphHeader.saddr`, behind the Ethernet header of 14 bytes.
  unfoldable pub sender_ip : System D → Text → Text
  unfolding byte
  sender_ip sys buffer =
      sys.inet_ntoa (byte buffer 26) (byte buffer 27) (byte buffer 28) (byte buffer 29)

  -- The body of the loop, for one device.
  unfoldable pub take_frame : Doubles D → System D → Network D → Device D → Network D
  unfolding ether_type sender_ip
  take_frame dbl sys n d =
      let answer = sys.frame d.device_name in
      let buffer = buffer_of answer in
      let mac = source_mac buffer in
      let ip = sender_ip sys buffer in
      let seen = (add_mac dbl (sys.seen_time d.device_name) n mac d.device_name).0 in
      if has_header answer
      then if ether_type buffer == 0x0800
        then if ip_allowed ip
          then update_mac_evidence seen d.device_name mac (text "ip") ip
          else seen
        else seen
      else n

  unfoldable pub take_frames : Doubles D → System D → Network D → List (Device D) → Network D
  take_frames dbl sys n [] = n
  take_frames dbl sys n (d ∷ ds) = take_frames dbl sys (take_frame dbl sys n d) ds

  unfoldable pub detect_network_activity : Doubles D → System D → Network D → Network D
  detect_network_activity dbl sys n =
      let n' = take_frames dbl sys n n.devices in
      if dbl.gt (dbl.minus sys.hostname_time n'.hostnames_last_checked) n'.hostname_check_interval
      then record (check_hostnames sys n') { hostnames_last_checked = sys.hostname_time }
      else n'
