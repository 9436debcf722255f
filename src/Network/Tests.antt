-- ===== src/Network/Tests.antt =====
-- The laws of macdetectd/src/Network.cpp on a network with two known addresses, of which one is old,
-- and a frame from a third one.
use macdetect.Base.{
  Text, ℕ, ◌≡◌, ◌++◌, ◌&&◌, ◌||◌, [], ◌∷◌, map, refl, arith, some, none, true, false, text, str_eq,
  reject, select, if◌then◌else◌,
}
use macdetect.Device.{Device, make, mac_text}
use macdetect.Device.Ping.{Host, icmp_behind}
use macdetect.Network.Frames.{ping_frame, send_ping_lem, heard, take_frame-send_ping}
use macdetect.Event.{device_event, device_removed}
use macdetect.Network.Macs.{expire, is_old, disappeared}
use macdetect.Network.Devices.{remove_device, contains, device_allowed, system_device_names}
use macdetect.Network.Activity.{has_header, take_frame}
use macdetect.Network.Cycle.{cycle}
use macdetect.Network.Known.{knows}
use macdetect.Network.Names.{names, replay_names}
use macdetect.Network.NamesFollow.{replay_names-cycle}
use macdetect.Network.Rounds.{cycle_devices_lem}
use macdetect.Network.System.{System}
use macdetect.Network.{Network}
use macdetect.Network.Replay.{pairs, replay, has}
use macdetect.Network.Tracking.{Inv}
use macdetect.Network.Follow.{run, replay-run}
use macdetect.Network.Loops.{gone, after, on_device, expire_lem, remove_device_lem}
use macdetect.Network.EvidenceLaws.{take_frame-failed}
use macdetect.Network.Samples.{seconds, wired_device, network, arp, answers}

network-Inv : Inv seconds network
unfolding has text str_eq
network-Inv = record {
  distinct = (refl, (refl, tt));
  real = (refl, (refl, tt));
  timed = (refl, (refl, tt));
}

replay-run_example :
    Inv seconds (run seconds network (answers (some arp) ∷ answers none ∷ [])).0
    × (replay
          (pairs network.macs_seen)
          (run seconds network (answers (some arp) ∷ answers none ∷ [])).1
        ≡ pairs (run seconds network (answers (some arp) ∷ answers none ∷ [])).0.macs_seen)
replay-run_example =
    replay-run seconds network (answers (some arp) ∷ answers none ∷ [])
      ((λ name. refl), ((λ name. refl), tt)) network-Inv

expire_lem_example :
    expire seconds 1000 2 network
    ≡ after network
        (reject (is_old seconds 1000 network) network.macs_seen)
        (map gone (select (is_old seconds 1000 network) network.macs_seen))
expire_lem_example = expire_lem seconds 1000 2 network (omega arith)

remove_device_lem_example :
    ((remove_device network (text "eth0")).0.macs_seen
      ≡ reject (on_device (text "eth0")) network.macs_seen)
    × ((remove_device network (text "eth0")).0.events
        ≡ network.events
          ++ device_event device_removed (text "eth0")
            ∷ map
                (λ e. disappeared (text "eth0") e.mac)
                (select (on_device (text "eth0")) network.macs_seen))
    × ((remove_device network (text "eth0")).1 ≡ false)
remove_device_lem_example = remove_device_lem network (text "eth0")

take_frame-failed_example :
    (has_header ((answers none).frame (text "eth0")) ≡ true)
    × (take_frame seconds (answers none) network wired_device ≡ network)
take_frame-failed_example = take_frame-failed seconds (answers none) network wired_device refl

-- The sender of a ping to the machine of `wired_device`.
abbrev sender_mac : Text
sender_mac = mac_text (2 ∷ 0 ∷ 0 ∷ 0 ∷ 0 ∷ 7 ∷ [])

abbrev sender : Device ℕ
sender = record wired_device {
  mac = sender_mac;
  ip = text "10.0.0.7";
  broadcast_ip = text "10.0.0.255";
}

abbrev host : Host
host = record {
  inet_aton = λ ip. 10 ∷ 0 ∷ 0 ∷ 7 ∷ [];
  ether_aton = λ mac.
      if str_eq mac sender_mac
      then some (2 ∷ 0 ∷ 0 ∷ 0 ∷ 0 ∷ 7 ∷ [])
      else some (2 ∷ 0 ∷ 0 ∷ 0 ∷ 0 ∷ 9 ∷ []);
  pid = 4711;
  milliseconds = 43200000;
  written = true;
}

abbrev ping : Text
ping = ping_frame 2 0 0 0 0 7 2 0 0 0 0 9 host (text "10.0.0.7") (text "10.0.0.9")

take_frame-send_ping_example :
    take_frame seconds (answers (some ping)) network wired_device
    ≡ heard seconds (answers (some ping)) network (text "eth0") sender_mac (10 ∷ 0 ∷ 0 ∷ 7 ∷ [])
unfolding text str_eq mac_text make
take_frame-send_ping_example =
    take_frame-send_ping 2 0 0 0 0 7 2 0 0 0 0 9 seconds (answers (some ping)) network wired_device
      host sender (text "10.0.0.9") (text "02:00:00:00:00:09") ping 10 0 0 7 true icmp_behind refl
      refl refl refl refl refl
      (send_ping_lem 2 0 0 0 0 7 2 0 0 0 0 9 host sender (text "10.0.0.9")
        (text "02:00:00:00:00:09") refl refl refl refl refl)
      refl

-- A network that manages its devices, on a system that has a second one.
abbrev managed : Network ℕ
managed = record network { auto_manage_devices = true }

abbrev second_device : System ℕ
second_device = record (answers none) {
  interfaces =
      record { interface_name = text "eth0"; is_loopback = false; is_wireless = false }
      ∷ record { interface_name = text "wlan0"; is_loopback = false; is_wireless = true }
      ∷ [];
}

cycle_devices_lem_example : knows (cycle seconds second_device managed).0.devices (text "wlan0") ≡ (
    contains (system_device_names second_device managed) (text "wlan0")
    && (knows managed.devices (text "wlan0")
        || device_allowed second_device managed (text "wlan0")))
cycle_devices_lem_example =
    cycle_devices_lem seconds second_device managed (text "wlan0") refl (refl, tt)

replay_names-cycle_example :
    replay_names (names managed.devices) (cycle seconds second_device managed).0.events
    ≡ names (cycle seconds second_device managed).0.devices
replay_names-cycle_example = replay_names-cycle seconds second_device managed
