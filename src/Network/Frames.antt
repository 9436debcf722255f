-- ===== src/Network/Frames.antt =====
-- A ping of macdetectd/src/Device.cpp, in the frame that macdetectd/src/Wire.cpp builds, as
-- macdetectd/src/Network.cpp of another machine reads it.
use macdetect.Base.{
  ℕ, ◌/◌, ◌%◌, Bool, true, false, [], ◌∷◌, ◌++◌, some, Text, text, str_eq, length, leb,
  if◌then◌else◌, ◌≡◌, ap, ◌∙◌, arith,
}
use macdetect.Doubles.{Doubles}
use macdetect.Device.{Device, mac_text}
use macdetect.Device.Checksum.{le16, ip_header_checksum}
use macdetect.Device.Ping.{Host, ip_front, ip_back, ip_header, icmp_packet, icmp_behind, send_ping}
use macdetect.Wire.{network16, wrap_in_ethernet_frame}
use macdetect.Network.System.{System}
use macdetect.Network.Macs.{add_mac, ip_allowed}
use macdetect.Network.Activity.{byte, has_header, source_mac, ether_type, sender_ip, take_frame}
use macdetect.Network.Evidence.{update_mac_evidence}
use macdetect.Network.{Network}

-- What the monitor does with a frame of IPv4 from an address.
unfoldable pub heard :
    {D : Type 0} → Doubles D → System D → Network D → Text → Text → Text → Network D
heard dbl sys n name mac ip =
    let seen = (add_mac dbl (sys.seen_time name) n mac name).0 in
    if ip_allowed ip then update_mac_evidence seen name mac (text "ip") ip else seen

module _ (s₀ s₁ s₂ s₃ s₄ s₅ r₀ r₁ r₂ r₃ r₄ r₅ : ℕ) where
  -- The bytes of the sender's address and of the receiver's.
  abbrev pub sender_bytes : Text
  sender_bytes = s₀ ∷ s₁ ∷ s₂ ∷ s₃ ∷ s₄ ∷ s₅ ∷ []

  abbrev pub receiver_bytes : Text
  receiver_bytes = r₀ ∷ r₁ ∷ r₂ ∷ r₃ ∷ r₄ ∷ r₅ ∷ []

  take_frame-wrap :
      {D : Type 0} (dbl : Doubles D) (sys : System D) (n : Network D) (d : Device D)
      (i₀ i₁ i₂ i₃ a b : ℕ) (rest : Text)
      → sys.frame d.device_name
        ≡ some (
            receiver_bytes
            ++ (sender_bytes
                ++ (network16 0x0800 ++ (ip_front ++ (a ∷ b ∷ i₀ ∷ i₁ ∷ i₂ ∷ i₃ ∷ rest)))))
      → take_frame dbl sys n d
        ≡ heard dbl sys n d.device_name (mac_text sender_bytes) (sys.inet_ntoa i₀ i₁ i₂ i₃)
  unfolding take_frame heard network16 le16 ip_front source_mac ether_type sender_ip has_header byte
  take_frame-wrap dbl sys n d i₀ i₁ i₂ i₃ a b rest e =
      let long : leb 14 (
            length (
              receiver_bytes
              ++ (sender_bytes
                  ++ (network16 0x0800 ++ (ip_front ++ (a ∷ b ∷ i₀ ∷ i₁ ∷ i₂ ∷ i₃ ∷ rest))))))
          ≡ true =
        ground arith in
      rw (e, long)

  abbrev pub ping_frame : Host → Text → Text → Text
  ping_frame host own_ip ip =
      receiver_bytes
      ++ (sender_bytes ++ (network16 0x0800 ++ (ip_header host own_ip ip ++ icmp_packet host)))

  pub send_ping_lem :
      {D : Type 0} (host : Host) (sender : Device D) (ip mac : Text)
      → str_eq sender.ip [] ≡ false
      → str_eq sender.broadcast_ip [] ≡ false
      → sender.mac ≡ mac_text sender_bytes
      → host.ether_aton (mac_text sender_bytes) ≡ some sender_bytes
      → host.ether_aton mac ≡ some receiver_bytes
      → send_ping host sender ip mac
        ≡ some (record {
          frames = ping_frame host sender.ip ip ∷ [];
          success = host.written;
          behind = icmp_behind;
        })
  unfolding send_ping wrap_in_ethernet_frame
  send_ping_lem host sender ip mac has_ip has_broadcast own own' other =
      rw (has_ip, has_broadcast, own, own', other)

  read_ping :
      {D : Type 0} (dbl : Doubles D) (sys : System D) (n : Network D) (d : Device D) (host : Host)
      (own_ip ip : Text) (i₀ i₁ i₂ i₃ : ℕ)
      → host.inet_aton own_ip ≡ i₀ ∷ i₁ ∷ i₂ ∷ i₃ ∷ []
      → sys.frame d.device_name ≡ some (ping_frame host own_ip ip)
      → take_frame dbl sys n d
        ≡ heard dbl sys n d.device_name (mac_text sender_bytes) (sys.inet_ntoa i₀ i₁ i₂ i₃)
  unfolding ip_header ip_front ip_back le16 network16
  read_ping dbl sys n d host own_ip ip i₀ i₁ i₂ i₃ addr read =
      let c = ip_header_checksum (ip_front ++ (0 ∷ 0 ∷ ip_back host own_ip ip)) in
      take_frame-wrap dbl sys n d i₀ i₁ i₂ i₃ (c % 256) (c / 256 % 256)
        (host.inet_aton ip ++ icmp_packet host)
        (read
          ∙ ap
              (λ x. some (
                receiver_bytes
                ++ (sender_bytes
                    ++ (network16 0x0800
                        ++ ((ip_front ++ (le16 c ++ (x ++ host.inet_aton ip)))
                            ++ icmp_packet host)))))
              addr)

  -- The frame of a ping, as a device builds it, is read by every machine that gets it as one of IPv4
  -- from the sender: the monitor does what `addMAC` does with the address of the sender and, if the IP
  -- address of the sender is allowed, takes this for evidence of it. The sender has both IP addresses,
  -- `ether_aton` and `inet_aton` read the addresses that are written, and the bytes that are written
  -- behind the buffer change nothing of the frame.
  pub take_frame-send_ping :
      {D : Type 0} (dbl : Doubles D) (sys : System D) (n : Network D) (d : Device D) (host : Host)
      (sender : Device D) (ip mac frame : Text) (i₀ i₁ i₂ i₃ : ℕ) (ok : Bool) (behind : Text)
      → str_eq sender.ip [] ≡ false
      → str_eq sender.broadcast_ip [] ≡ false
      → sender.mac ≡ mac_text sender_bytes
      → host.ether_aton (mac_text sender_bytes) ≡ some sender_bytes
      → host.ether_aton mac ≡ some receiver_bytes
      → host.inet_aton sender.ip ≡ i₀ ∷ i₁ ∷ i₂ ∷ i₃ ∷ []
      → send_ping host sender ip mac
        ≡ some (record { frames = frame ∷ []; success = ok; behind = behind })
      → sys.frame d.device_name ≡ some frame
      → take_frame dbl sys n d
        ≡ heard dbl sys n d.device_name sender.mac (sys.inet_ntoa i₀ i₁ i₂ i₃)
  take_frame-send_ping dbl sys n d host sender ip mac frame i₀ i₁ i₂ i₃ ok behind has_ip
        has_broadcast own own' other addr sent read =
      let whole = send_ping_lem host sender ip mac has_ip has_broadcast own own' other in
      let same : frame ≡ ping_frame host sender.ip ip = ground (arith, whole, sent) in
      rw own (read_ping dbl sys n d host sender.ip ip i₀ i₁ i₂ i₃ addr (read ∙ ap some same))
