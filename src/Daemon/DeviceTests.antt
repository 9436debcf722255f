-- ===== src/Daemon/DeviceTests.antt =====
-- Rounds of macdetectd/src/Daemon.cpp in which a device goes and another one comes, with a client that
-- has no stream.
use macdetect.Base.{
  ℕ, [], ◌∷◌, Option, none, some, true, false, text, str_eq, take_first, ◌≡◌, refl,
}
use macdetect.Device.{send_ping_broadcast, make, mac_text}
use macdetect.Network.Samples.{seconds, network, answers}
use mathlib.Core.Bool.{xor}
use macdetect.Event.{change_running}
use macdetect.Network.Cycle.{
  update_status, all_status_events, status_events, cycle as network_cycle, maintain_devices,
  manage_devices,
}
use macdetect.Network.Devices.{
  device_allowed, known_device, system_device_names, new_device, add_device, remove_device,
  add_devices, remove_devices,
}
use macdetect.Network.Activity.{
  detect_network_activity, take_frames, take_frame, has_header, source_mac,
}
use macdetect.Network.Macs.{expire, remove_device_macs, add_mac, mac_allowed}
use macdetect.Network.Evidence.{check_hostnames, check_hostnames_of}
use macdetect.Server.{
  would_block, cycle as server_cycle, poll, close_dead, receive_all, drop_served, take_removed,
  queued_values,
}
use macdetect.Server.Received.{got, nothing}
use macdetect.Server.Connections.{connections}
use macdetect.Daemon.Requests.{handle_values, handle_value, response, answer_request}
use macdetect.Daemon.Notices.{handle_events, handle_event, end_streams}
use macdetect.Daemon.Fold.{read_all}
use macdetect.Daemon.Cycle.{Round, Turn, drop_streams, keep_alive, serve_round, cycle}
use macdetect.Daemon.DeviceView.{track_names}
use macdetect.Daemon.DeviceNews.{device_names, Connected, start, round, read_names-Connected}
use macdetect.Value.{Value, content, key, add_pairs, make as make_value}
use macdetect.Client.{request_device_names}
use macdetect.Server.Queue.{clients_of}
use macdetect.Daemon.Answers.{responses, read_devices}
use macdetect.Daemon.Learning.{read_names-read_devices}
use macdetect.Daemon.{Daemon}

abbrev daemon : Daemon ℕ
daemon = record {
  identifier = text "home";
  server = record {
    server_name = text "home";
    run = true;
    servings = [];
    served = (20, 0) ∷ [];
    value_queue = [];
    removed = [];
  };
  network = record network { auto_manage_devices = true; macs_seen = [] };
  streams = [];
  last_keep_alive = 1;
  keep_alive_interval = 6;
}

abbrev swap_round : Round ℕ
swap_round = record {
  system = record (answers none) {
    interfaces =
        record { interface_name = text "wlan0"; is_loopback = false; is_wireless = true } ∷ [];
  };
  clients = record {
    answer = λ v. record { listens = true; accept = would_block };
    received = λ h. nothing false;
  };
  discovery = none;
  keep_alive_time = 3;
}

abbrev turn : Option (Turn ℕ) → Turn ℕ
turn none = record { daemon = daemon; sent = []; multicast = []; success = false }
turn (some t) = t

abbrev after : Turn ℕ
after = turn (cycle seconds swap_round daemon)

one_round : Connected seconds 20 daemon after.sent after.daemon
unfolding cycle network_cycle detect_network_activity take_frames take_frame check_hostnames
    check_hostnames_of expire maintain_devices manage_devices server_cycle poll close_dead
    receive_all drop_served serve_round take_removed queued_values drop_streams handle_values
    handle_events handle_event end_streams keep_alive connections text str_eq all_status_events
    status_events xor change_running has_header add_mac mac_allowed source_mac mac_text add_devices
    system_device_names known_device make add_device device_allowed remove_devices remove_device
    remove_device_macs take_first new_device
one_round = round start swap_round after refl refl refl

read_names-Connected_example :
    read_all track_names 20 (device_names daemon) after.sent ≡ device_names after.daemon
read_names-Connected_example = read_names-Connected seconds 20 one_round

-- The client asks when there is no device, and one comes in the next round.
abbrev bare : Daemon ℕ
bare = record daemon {
  network = record daemon.network { devices = []; hostnames_last_checked = 1002 };
}

abbrev asking_round : Round ℕ
asking_round = record swap_round {
  system = answers none;
  clients = record {
    answer = λ v. record { listens = true; accept = would_block };
    received = λ h. got request_device_names;
  };
}

abbrev asked : Turn ℕ
asked = record (turn (cycle seconds asking_round bare)) { daemon = bare }

abbrev heard : Turn ℕ
heard = turn (cycle seconds swap_round bare)

asked_lem : (cycle seconds asking_round bare ≡ some asked) × (asked.success ≡ true)
unfolding cycle network_cycle detect_network_activity take_frames take_frame check_hostnames
    check_hostnames_of expire maintain_devices manage_devices server_cycle poll close_dead
    receive_all drop_served serve_round take_removed queued_values drop_streams handle_values
    handle_events handle_event end_streams keep_alive connections text str_eq all_status_events
    status_events xor change_running has_header add_mac mac_allowed source_mac mac_text add_devices
    system_device_names known_device make add_device device_allowed remove_devices remove_device
    remove_device_macs take_first new_device handle_value key response add_pairs make_value
    answer_request content
asked_lem = (refl, refl)

once : connections 20 (clients_of asking_round.clients bare.server) ≡ 1
unfolding connections
once = refl

later : Connected seconds 20 bare heard.sent heard.daemon
unfolding cycle network_cycle detect_network_activity take_frames take_frame check_hostnames
    check_hostnames_of expire maintain_devices manage_devices server_cycle poll close_dead
    receive_all drop_served serve_round take_removed queued_values drop_streams handle_values
    handle_events handle_event end_streams keep_alive connections text str_eq all_status_events
    status_events xor change_running has_header add_mac mac_allowed source_mac mac_text add_devices
    system_device_names known_device make add_device device_allowed remove_devices remove_device
    remove_device_macs take_first new_device send_ping_broadcast update_status
later = round start swap_round heard refl refl refl

read_names-read_devices_example :
    (w : Value) × (responses 20 asked.sent ≡ w ∷ [])
    × (read_all track_names 20 (read_devices w) heard.sent ≡ device_names heard.daemon)
unfolding content make_value text
read_names-read_devices_example =
    read_names-read_devices seconds 20 asking_round bare asked request_device_names refl asked_lem.0
      asked_lem.1 once refl refl later
