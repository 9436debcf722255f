-- ===== src/Rarp/Tests.antt =====
-- A request of macdetectd/src/RARP.cpp, read by a machine that has not seen the sender yet.
use macdetect.Base.{
  take, ℕ, [], ◌∷◌, ◌++◌, Option, some, Text, text, str_eq, if◌then◌else◌, ◌≡◌, refl,
}
use macdetect.Device.{Device, make, mac_text}
use macdetect.Network.Macs.{add_mac}
use macdetect.Network.Activity.{take_frame}
use macdetect.Network.Samples.{seconds, wired_device, network, answers}
use macdetect.Rarp.{rarp_packet, request_ip}
use macdetect.Wire.{network16, wrap_in_ethernet_frame}
use macdetect.Rarp.Frames.{take_frame-request_ip}

abbrev sender_mac : Text
sender_mac = mac_text (2 ∷ 0 ∷ 0 ∷ 0 ∷ 0 ∷ 7 ∷ [])

abbrev sender : Device ℕ
sender = record wired_device { mac = sender_mac }

abbrev ether_aton : Text → Option Text
ether_aton mac =
    if str_eq mac sender_mac
    then some (2 ∷ 0 ∷ 0 ∷ 0 ∷ 0 ∷ 7 ∷ [])
    else if str_eq mac (text "ff:ff:ff:ff:ff:ff")
    then some (255 ∷ 255 ∷ 255 ∷ 255 ∷ 255 ∷ 255 ∷ [])
    else some (2 ∷ 0 ∷ 0 ∷ 0 ∷ 0 ∷ 9 ∷ [])

abbrev request : Text
request =
    255
    ∷ 255
    ∷ 255
    ∷ 255
    ∷ 255
    ∷ 255
    ∷ 2
    ∷ 0
    ∷ 0
    ∷ 0
    ∷ 0
    ∷ 7
    ∷ (network16 0x0806 ++ rarp_packet (2 ∷ 0 ∷ 0 ∷ 0 ∷ 0 ∷ 7 ∷ []) (2 ∷ 0 ∷ 0 ∷ 0 ∷ 0 ∷ 9 ∷ []))

take_frame-request_ip_example :
    (take 6 request ≡ 255 ∷ 255 ∷ 255 ∷ 255 ∷ 255 ∷ 255 ∷ [])
    × (take_frame seconds (answers (some request)) network wired_device
        ≡ (add_mac seconds 1001 network sender_mac (text "eth0")).0)
unfolding text str_eq mac_text make request_ip wrap_in_ethernet_frame
take_frame-request_ip_example =
    take_frame-request_ip 2 0 0 0 0 7 255 255 255 255 255 255 seconds (answers (some request))
      network wired_device ether_aton sender (text "02:00:00:00:00:09") (2 ∷ 0 ∷ 0 ∷ 0 ∷ 0 ∷ 9 ∷ [])
      request refl refl refl refl refl refl
