-- ===== src/Daemon/AnswerTests.antt =====
-- Two rounds of macdetectd/src/Daemon.cpp: a client that follows a device asks for the known
-- addresses, which has an old one then, and the other one gets too old.
use macdetect.Base.{
  ℕ, [], ◌∷◌, Option, none, some, true, false, text, str_eq, take_first, ◌≡◌, refl, arith,
}
use mathlib.Core.Bool.{xor}
use macdetect.Value.{Value, key, content, add_pairs, make as make_value}
use macdetect.Device.{make, mac_text, send_ping_broadcast}
use macdetect.Event.{mac_event, change_running}
use macdetect.Network.Samples.{seconds, network, answers}
use macdetect.Network.Replay.{has}
use macdetect.Network.Cycle.{
  update_status, all_status_events, status_events, cycle as network_cycle, maintain_devices,
  manage_devices,
}
use macdetect.Network.Activity.{
  detect_network_activity, take_frames, take_frame, has_header, source_mac,
}
use macdetect.Network.Macs.{add_mac, mac_allowed, mac_last_seen, expire, is_old}
use macdetect.Network.Evidence.{check_hostnames, check_hostnames_of}
use macdetect.Server.{
  would_block, cycle as server_cycle, poll, close_dead, receive_all, drop_served, take_removed,
  queued_values,
}
use macdetect.Server.{Received}
use macdetect.Server.Received.{got, nothing}
use macdetect.Server.Connections.{connections}
use macdetect.Daemon.Streams.{stream_enabled, erase_streams}
use macdetect.Daemon.Requests.{handle_values, handle_value, response, answer_request}
use macdetect.Daemon.Notices.{handle_events, handle_event, end_streams}
use macdetect.Daemon.Cycle.{Round, Turn, drop_streams, keep_alive, serve_round, cycle}
use macdetect.Daemon.View.{track_all}
use macdetect.Daemon.Knows.{macs}
use macdetect.Daemon.History.{Followed, start, round}
use macdetect.Daemon.Safe.{IsSafe}
use macdetect.Daemon.Answers.{responses, read_known}
use macdetect.Daemon.Answering.{known_in}
use macdetect.Daemon.Answered.{IsAnswered, cycle-IsAnswered}
use macdetect.Daemon.Learning.{track_all-read_known}
use macdetect.Client.{request_known_mac_addresses}
use macdetect.Daemon.{Daemon}

abbrev daemon : Daemon ℕ
daemon = record {
  identifier = text "home";
  server = record {
    server_name = text "home";
    run = true;
    servings = [];
    served = (20, 0) ∷ [];
    value_queue = [];
    removed = [];
  };
  network = record network { devices = [] };
  streams = record { served = 20; device_name = text "eth0" } ∷ [];
  last_keep_alive = 1;
  keep_alive_interval = 6;
}

daemon-IsSafe : IsSafe seconds daemon
unfolding connections has text str_eq
daemon-IsSafe = record {
  sound = record {
    servings = tt;
    devices = tt;
    seen = record {
      distinct = (refl, (refl, tt));
      real = (refl, (refl, tt));
      timed = (refl, (refl, tt));
    };
  };
  streams = record { owned = (omega arith, tt); answered = refl };
}

abbrev round_with : Received → ℕ → Round ℕ
round_with r time = record {
  system = record (answers none) { cycle_time = time };
  clients = record {
    answer = λ s. record { listens = true; accept = would_block };
    received = λ h. r;
  };
  discovery = none;
  keep_alive_time = 3;
}

abbrev asking : Round ℕ
asking = round_with (got request_known_mac_addresses) 1000

abbrev hearing : Round ℕ
hearing = round_with (nothing false) 2000

abbrev turn : Option (Turn ℕ) → Turn ℕ
turn none = record { daemon = daemon; sent = []; multicast = []; success = false }
turn (some t) = t

abbrev asked : Turn ℕ
asked = turn (cycle seconds asking daemon)

abbrev heard : Turn ℕ
heard = turn (cycle seconds hearing asked.daemon)

asked_lem : (cycle seconds asking daemon ≡ some asked) × (asked.success ≡ true)
unfolding cycle network_cycle detect_network_activity take_frames check_hostnames check_hostnames_of
    expire maintain_devices manage_devices server_cycle poll close_dead receive_all drop_served
    serve_round take_removed queued_values drop_streams erase_streams handle_values handle_value
    response text str_eq key add_pairs make_value take_frame has_header add_mac mac_allowed
    source_mac mac_text take_first is_old
asked_lem = (refl, refl)

once : connections 20 daemon.server.served ≡ 1
unfolding connections
once = refl

cycle-IsAnswered_example :
    IsAnswered (known_in asked.daemon) (got request_known_mac_addresses) (responses 20 asked.sent)
cycle-IsAnswered_example =
    cycle-IsAnswered seconds 20 asking daemon asked asked_lem.0 asked_lem.1 refl once

later : Followed seconds 20 (text "eth0") asked.daemon heard.sent heard.daemon
unfolding cycle network_cycle detect_network_activity take_frames check_hostnames check_hostnames_of
    expire maintain_devices manage_devices server_cycle poll close_dead receive_all drop_served
    serve_round take_removed queued_values drop_streams erase_streams handle_values handle_value
    response text str_eq key add_pairs make_value take_frame has_header add_mac mac_allowed
    source_mac mac_text take_first is_old handle_events handle_event end_streams keep_alive
    stream_enabled connections make mac_last_seen all_status_events status_events xor mac_event
    change_running answer_request content send_ping_broadcast update_status
later = round start hearing heard refl refl (λ name. refl) (record { enabled = refl; once = refl })

track_all-read_known_example :
    (w : Value) × (responses 20 asked.sent ≡ w ∷ [])
    × (track_all 20 (text "eth0") (read_known (text "eth0") w) heard.sent
        ≡ macs 20 (text "eth0") heard.daemon)
unfolding text content make_value
track_all-read_known_example =
    track_all-read_known seconds 20 (text "eth0") asking daemon asked request_known_mac_addresses
      daemon-IsSafe (λ name. refl) asked_lem.0 asked_lem.1 once refl refl later
