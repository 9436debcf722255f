-- ===== src/Device/PingLaws.antt =====
-- The headers of a ping of macdetectd/src/Device.cpp, as its receiver checks them.
use macdetect.Base.{
  ◌+◌, ◌^◌, ◌<◌, [], ◌∷◌, ◌++◌, Text, All, length, length-append, ◌≡◌, refl, arith,
}
use macdetect.Wire.{network16}
use macdetect.Device.Checksum.{le16, ip_header_checksum, add_words, icmp_header_checksum}
use macdetect.Device.Verify.{
  IsByte, bytes-append, ip_header_checksum_verifies, icmp_header_checksum_verifies,
}
use macdetect.Device.Ping.{
  Host, ip_front, ip_back, ip_header, network32, icmp_front, icmp_back, icmp_packet,
}

icmp_sum : (host : Host) → add_words 0 (icmp_front ++ icmp_back host) + 65535 < 2 ^ 31
unfolding add_words icmp_back network32 le16
icmp_sum host = omega arith

-- The IP header and the ICMP packet of every ping have the checksum zero, whatever the addresses, the
-- process and the time. `inet_aton` gives bytes.
pub ping_verifies :
    (host : Host) (ip destination_ip : Text)
    → All IsByte (host.inet_aton ip)
    → All IsByte (host.inet_aton destination_ip)
    → (ip_header_checksum (ip_header host ip destination_ip) ≡ 0)
      × (icmp_header_checksum (icmp_packet host) ≡ 0)
unfolding ip_header icmp_packet ip_front ip_back network16 le16
ping_verifies host ip destination_ip h k = (
  ip_header_checksum_verifies ip_front (ip_back host ip destination_ip) (omega arith)
      (bytes-append (host.inet_aton ip) (host.inet_aton destination_ip) h k) tt,
  icmp_header_checksum_verifies icmp_front (icmp_back host) tt (icmp_sum host),
)

-- The IP header gives the length 84, but a ping has 40 bytes behind the frame's header: 20 of the IP
-- header and 20 of the ICMP packet. `inet_aton` gives four bytes.
pub ping_length :
    (host : Host) (ip destination_ip : Text)
    → length (host.inet_aton ip) ≡ 4
    → length (host.inet_aton destination_ip) ≡ 4
    → (length (ip_header host ip destination_ip ++ icmp_packet host) ≡ 40)
      × (ip_front ≡ 0x45 ∷ 0 ∷ (network16 84 ++ (0 ∷ 0 ∷ 0x40 ∷ 0 ∷ 64 ∷ 1 ∷ [])))
unfolding ip_header icmp_packet ip_front ip_back icmp_back network16 network32 le16
ping_length host ip destination_ip h k = (
  omega (
    arith,
    h,
    k,
    length-append (host.inet_aton ip) (host.inet_aton destination_ip),
    length-append (host.inet_aton ip ++ host.inet_aton destination_ip) (icmp_packet host),
  ),
  refl,
)
