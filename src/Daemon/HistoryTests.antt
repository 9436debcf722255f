-- ===== src/Daemon/HistoryTests.antt =====
-- A round of macdetectd/src/Daemon.cpp in which a new address is seen, with a client that follows the
-- device.
use macdetect.Base.{
  ℕ, [], ◌∷◌, Option, none, some, true, false, text, str_eq, take_first, ◌≡◌, refl,
}
use macdetect.Device.{make, mac_text}
use macdetect.Network.Samples.{seconds, network, arp, answers}
use macdetect.Network.Replay.{has}
use macdetect.Network.Tracking.{Inv}
use mathlib.Core.Bool.{xor}
use macdetect.Event.{mac_event, change_running}
use macdetect.Network.Cycle.{
  all_status_events, status_events, cycle as network_cycle, maintain_devices, manage_devices,
}
use macdetect.Network.Activity.{
  detect_network_activity, take_frames, take_frame, has_header, source_mac,
}
use macdetect.Network.Macs.{add_mac, mac_allowed, mac_last_seen, expire, is_old}
use macdetect.Network.Evidence.{check_hostnames, check_hostnames_of}
use macdetect.Server.{
  would_block, cycle as server_cycle, poll, close_dead, receive_all, drop_served, take_removed,
  queued_values,
}
use macdetect.Server.Received.{nothing}
use macdetect.Server.Connections.{connections}
use macdetect.Daemon.Streams.{stream_enabled, erase_streams}
use macdetect.Daemon.Requests.{handle_values}
use macdetect.Daemon.Notices.{handle_events, handle_event, end_streams}
use macdetect.Daemon.Cycle.{Round, Turn, drop_streams, keep_alive, serve_round, cycle}
use macdetect.Daemon.View.{track_all}
use macdetect.Daemon.Knows.{macs}
use macdetect.Daemon.History.{Followed, start, round, track_all-Followed}
use macdetect.Daemon.{Daemon}

abbrev daemon : Daemon ℕ
daemon = record {
  identifier = text "home";
  server = record {
    server_name = text "home";
    run = true;
    servings = [];
    served = (20, 0) ∷ [];
    value_queue = [];
    removed = [];
  };
  network = network;
  streams = record { served = 20; device_name = text "eth0" } ∷ [];
  last_keep_alive = 1;
  keep_alive_interval = 6;
}

abbrev frame_round : Round ℕ
frame_round = record {
  system = answers (some arp);
  clients = record {
    answer = λ v. record { listens = true; accept = would_block };
    received = λ h. nothing false;
  };
  discovery = none;
  keep_alive_time = 3;
}

abbrev turn : Option (Turn ℕ) → Turn ℕ
turn none = record { daemon = daemon; sent = []; multicast = []; success = false }
turn (some t) = t

abbrev after : Turn ℕ
after = turn (cycle seconds frame_round daemon)

network-Inv : Inv seconds network
unfolding has text str_eq
network-Inv = record {
  distinct = (refl, (refl, tt));
  real = (refl, (refl, tt));
  timed = (refl, (refl, tt));
}

one_round : Followed seconds 20 (text "eth0") daemon after.sent after.daemon
unfolding cycle network_cycle detect_network_activity take_frames check_hostnames check_hostnames_of
    expire maintain_devices manage_devices server_cycle poll close_dead receive_all drop_served
    serve_round take_removed queued_values drop_streams erase_streams handle_values handle_events
    handle_event end_streams keep_alive stream_enabled connections text str_eq take_frame has_header
    add_mac mac_allowed source_mac mac_text make mac_last_seen take_first is_old all_status_events
    status_events xor mac_event change_running
one_round =
    round start frame_round after refl refl (λ name. refl) (record { enabled = refl; once = refl })

track_all-Followed_example :
    (track_all 20 (text "eth0") (macs 20 (text "eth0") daemon) after.sent
      ≡ macs 20 (text "eth0") after.daemon)
    × Inv seconds after.daemon.network
track_all-Followed_example = track_all-Followed seconds 20 (text "eth0") one_round network-Inv
