-- ===== src/Device/Tests.antt =====
-- The checksums and the pings of macdetectd/src/Device.cpp on an echo to all.
use macdetect.Base.{
  ◌+◌, ◌<◌, [], ◌∷◌, some, true, Text, text, All, str_eq, ◌≡◌, arith, if◌then◌else◌,
}
use macdetect.Device.Checksum.{accumulate, ip_header_checksum, icmp_header_checksum}
use macdetect.Device.Verify.{IsByte, word_sum, ones_complement, accumulate_lem}
use macdetect.Device.Ping.{Host, ip_header, icmp_packet}
use macdetect.Device.PingLaws.{ping_verifies}

abbrev host : Host
host = record {
  inet_aton =
      λ ip. if str_eq ip (text "10.0.0.1") then 10 ∷ 0 ∷ 0 ∷ 1 ∷ [] else 255 ∷ 255 ∷ 255 ∷ 255 ∷ [];
  ether_aton = λ mac. some (255 ∷ 255 ∷ 255 ∷ 255 ∷ 255 ∷ 255 ∷ []);
  pid = 4711;
  milliseconds = 43200000;
  written = true;
}

abbrev address : Text
address = 10 ∷ 0 ∷ 0 ∷ 1 ∷ []

address-IsByte : All IsByte address
address-IsByte = (omega arith, (omega arith, (omega arith, (omega arith, tt))))

accumulate_lem_example :
    (accumulate 65535 address ≡ ones_complement (65535 + word_sum address))
    × (0 < accumulate 65535 address)
    × (accumulate 65535 address < 65536)
accumulate_lem_example = accumulate_lem address 65535 address-IsByte (omega arith) (omega arith)

broadcast-IsByte : All IsByte (host.inet_aton (text "255.255.255.255"))
unfolding text str_eq
broadcast-IsByte = (omega arith, (omega arith, (omega arith, (omega arith, tt))))

ping_verifies_example :
    (ip_header_checksum (ip_header host (text "10.0.0.1") (text "255.255.255.255")) ≡ 0)
    × (icmp_header_checksum (icmp_packet host) ≡ 0)
unfolding text str_eq
ping_verifies_example =
    ping_verifies host (text "10.0.0.1") (text "255.255.255.255") address-IsByte broadcast-IsByte
