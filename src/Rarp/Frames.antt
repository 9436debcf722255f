-- ===== src/Rarp/Frames.antt =====
-- A request of macdetectd/src/RARP.cpp, as macdetectd/src/Network.cpp of another machine reads it.
use macdetect.Base.{
  ℕ, true, [], ◌∷◌, ◌++◌, Option, some, Text, text, length, take, leb, ap, ◌≡◌, ◌∙◌, sym, arith,
}
use macdetect.Doubles.{Doubles}
use macdetect.Device.{Device, mac_text}
use macdetect.Wire.{network16, wrap_in_ethernet_frame}
use macdetect.Network.System.{System}
use macdetect.Network.Macs.{add_mac}
use macdetect.Network.Activity.{byte, has_header, source_mac, ether_type, take_frame}
use macdetect.Network.{Network}
use macdetect.Rarp.{rarp_packet, request_ip}

module _ (s₀ s₁ s₂ s₃ s₄ s₅ b₀ b₁ b₂ b₃ b₄ b₅ : ℕ) where
  abbrev pub sender_bytes : Text
  sender_bytes = s₀ ∷ s₁ ∷ s₂ ∷ s₃ ∷ s₄ ∷ s₅ ∷ []

  abbrev pub broadcast_bytes : Text
  broadcast_bytes = b₀ ∷ b₁ ∷ b₂ ∷ b₃ ∷ b₄ ∷ b₅ ∷ []

  abbrev frame_with : Text → Text
  frame_with payload = broadcast_bytes ++ (sender_bytes ++ (network16 0x0806 ++ payload))

  -- A frame that is not one of IPv4 gives an address and no evidence.
  take_frame-other :
      {D : Type 0} (dbl : Doubles D) (sys : System D) (n : Network D) (d : Device D)
      (payload : Text)
      → sys.frame d.device_name ≡ some (frame_with payload)
      → take_frame dbl sys n d
        ≡ (add_mac dbl (sys.seen_time d.device_name) n (mac_text sender_bytes) d.device_name).0
  unfolding take_frame network16 source_mac ether_type has_header byte
  take_frame-other dbl sys n d payload e =
      let long : leb 14 (length (frame_with payload)) ≡ true = ground arith in rw (e, long)

  -- A request for an IP address is a frame whose destination is the broadcast address, and each
  -- monitor that reads it does what `addMAC` does with the address of the sender, and takes nothing
  -- else from the frame. `ether_aton` reads the addresses.
  pub take_frame-request_ip :
      {D : Type 0} (dbl : Doubles D) (sys : System D) (n : Network D) (d : Device D)
      (ether_aton : Text → Option Text) (sender : Device D) (mac wanted frame : Text)
      → sender.mac ≡ mac_text sender_bytes
      → ether_aton (mac_text sender_bytes) ≡ some sender_bytes
      → ether_aton (text "ff:ff:ff:ff:ff:ff") ≡ some broadcast_bytes
      → ether_aton mac ≡ some wanted
      → request_ip ether_aton sender mac ≡ some frame
      → sys.frame d.device_name ≡ some frame
      → (take 6 frame ≡ broadcast_bytes)
        × (take_frame dbl sys n d
            ≡ (add_mac dbl (sys.seen_time d.device_name) n sender.mac d.device_name).0)
  unfolding request_ip wrap_in_ethernet_frame
  take_frame-request_ip dbl sys n d ether_aton sender mac wanted frame own own' all other sent
        read =
      let payload = rarp_packet sender_bytes wanted in
      let whole : request_ip ether_aton sender mac ≡ some (frame_with payload) =
        rw (own, own', other, all) in
      let same : some frame ≡ some (frame_with payload) = sym sent ∙ whole in
      let frame_same : frame ≡ frame_with payload = ground (arith, same) in
      (ap (take 6) frame_same, rw own (take_frame-other dbl sys n d payload (read ∙ same)))
