-- ===== src/Rarp.antt =====
-- macdetectd/src/RARP.cpp: the request for the IP address of a hardware address. The numbers of the
-- packet are written as they stand in the memory of a little-endian machine. `ether_aton` is an
-- argument, as in Wire.
pub mod Frames
mod Tests
use macdetect.Base.{ℕ, [], ◌∷◌, ◌++◌, Option, none, some, Text, text, ◌>>=◌}
use macdetect.Device.Checksum.{le16}
use macdetect.Device.{Device}
use macdetect.Wire.{wrap_in_ethernet_frame}

-- `RARPPacket`: the types and the lengths of the addresses, the operation, and the addresses of both
-- sides, of which the IP addresses are zero.
unfoldable pub rarp_packet : Text → Text → Text
unfolding le16
rarp_packet source destination =
    le16 0x0100
    ++ (le16 0x0008
        ++ (6
            ∷ 4
            ∷ (le16 0x0300 ++ (source ++ (0 ∷ 0 ∷ 0 ∷ 0 ∷ (destination ++ (0 ∷ 0 ∷ 0 ∷ 0 ∷ [])))))))

-- The frame that `requestIP` writes; `none` is a null pointer that is followed.
unfoldable pub request_ip : {D : Type 0} → (Text → Option Text) → Device D → Text → Option Text
unfolding rarp_packet
request_ip ether_aton d mac = do
  source ← ether_aton d.mac
  destination ← ether_aton mac
  wrap_in_ethernet_frame ether_aton d.mac (text "ff:ff:ff:ff:ff:ff") 0x0806
      (rarp_packet source destination)

-- `ipFromResponse`, which reads nothing of the packet yet.
unfoldable pub ip_from_response : Text → Text
ip_from_response response = []
