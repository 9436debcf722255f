-- ===== src/Client/ReadingTests.antt =====
-- A client of macdetectd/src/Daemon.cpp that follows a device reads the bytes of a round in which an
-- address is too old.
use macdetect.Base.{
  ℕ, zero, suc, ◌<◌, List, [], ◌∷◌, map, Option, none, some, true, false, text, str_eq, length,
  take_first, ◌≡◌, refl, arith, All,
}
use macdetect.Value.{Value, value, nil, cons, size, add_pairs, push_back, set}
use macdetect.Value.Wire.{le32}
use macdetect.Value.Encode.{encode}
use macdetect.Packet.{PacketEntity}
use macdetect.Packet.Send.{Bounded, Progress}
use macdetect.Packet.Channel.{Channel, channel, act_each, encoded, IsShort, sent as was_sent}
use macdetect.Event.{mac_event}
use macdetect.Network.Samples.{seconds, network, answers}
use macdetect.Network.Replay.{has}
use macdetect.Network.Tracking.{Inv}
use macdetect.Network.Cycle.{
  all_status_events, cycle as network_cycle, maintain_devices, manage_devices,
}
use macdetect.Network.Activity.{detect_network_activity, take_frames}
use macdetect.Network.Macs.{expire, is_old}
use macdetect.Network.Evidence.{check_hostnames, check_hostnames_of}
use macdetect.Server.{
  would_block, cycle as server_cycle, poll, close_dead, receive_all, drop_served, take_removed,
  queued_values,
}
use macdetect.Server.Received.{nothing}
use macdetect.Server.Connections.{connections}
use macdetect.Daemon.Streams.{stream_enabled, erase_streams}
use macdetect.Daemon.Requests.{handle_values}
use macdetect.Daemon.Notices.{handle_events, handle_event, end_streams, notice, audience, receivers}
use macdetect.Daemon.Cycle.{Round, Turn, drop_streams, keep_alive, serve_round, cycle}
use macdetect.Daemon.Knows.{macs}
use macdetect.Daemon.Fold.{values_to, read_values}
use macdetect.Daemon.View.{track}
use macdetect.Daemon.DeviceView.{track_names}
use macdetect.Daemon.DeviceNews.{device_names}
use macdetect.Daemon.History.{Followed, start, round}
use macdetect.Client.Reading.{sends, receive_each, receive_each-Followed}
use macdetect.Daemon.{Daemon}

abbrev daemon : Daemon ℕ
daemon = record {
  identifier = text "home";
  server = record {
    server_name = text "home";
    run = true;
    servings = [];
    served = (20, 0) ∷ [];
    value_queue = [];
    removed = [];
  };
  network = record network { devices = [] };
  streams = record { served = 20; device_name = text "eth0" } ∷ [];
  last_keep_alive = 1;
  keep_alive_interval = 6;
}

network-Inv : Inv seconds daemon.network
unfolding has text str_eq
network-Inv = record {
  distinct = (refl, (refl, tt));
  real = (refl, (refl, tt));
  timed = (refl, (refl, tt));
}

abbrev idle : Round ℕ
idle = record {
  system = answers none;
  clients = record {
    answer = λ s. record { listens = true; accept = would_block };
    received = λ h. nothing false;
  };
  discovery = none;
  keep_alive_time = 3;
}

abbrev turn : Option (Turn ℕ) → Turn ℕ
turn none = record { daemon = daemon; sent = []; multicast = []; success = false }
turn (some t) = t

abbrev after : Turn ℕ
after = turn (cycle seconds idle daemon)

one_round : Followed seconds 20 (text "eth0") daemon after.sent after.daemon
unfolding cycle network_cycle detect_network_activity take_frames check_hostnames check_hostnames_of
    expire maintain_devices manage_devices server_cycle poll close_dead receive_all drop_served
    serve_round take_removed queued_values drop_streams erase_streams handle_values handle_events
    handle_event end_streams keep_alive stream_enabled connections text str_eq take_first is_old
    mac_event all_status_events
one_round = round start idle after refl refl (λ name. refl) (record { enabled = refl; once = refl })

abbrev gone : Value
gone = value (text "info") (text "mac-address-disappeared") (
    cons (value (text "mac") (text "02:00:00:00:00:01") nil)
      (cons (value (text "device-name") (text "eth0") nil) nil))

only_notice : values_to 20 after.sent ≡ gone ∷ []
unfolding cycle network_cycle detect_network_activity take_frames check_hostnames check_hostnames_of
    expire maintain_devices manage_devices server_cycle poll close_dead receive_all drop_served
    serve_round take_removed queued_values drop_streams erase_streams handle_values handle_events
    handle_event end_streams keep_alive stream_enabled text str_eq take_first is_old mac_event
    values_to all_status_events receivers audience notice add_pairs set push_back
only_notice = refl

abbrev peer : PacketEntity
peer = record { socket = 5; failure_state = false }

-- A call of `write` takes one byte.
abbrev one_byte : ℕ → ℕ → ℕ
one_byte i zero = 0
one_byte i (suc n) = 1

one_byte-Bounded : Bounded one_byte
one_byte-Bounded i zero = omega arith
one_byte-Bounded i (suc n) = omega arith

one_byte-Progress : Progress one_byte
one_byte-Progress i zero h = h
one_byte-Progress i (suc n) h = omega arith

short : All IsShort (values_to 20 after.sent) × (length (encoded (values_to 20 after.sent)) < 200)
unfolding encode le32 size text
short = rw only_notice ((omega arith, tt), omega arith)

receive_each-Followed_example :
    (c : Channel) × (vs : List Value) × (act_each
        (λ n i. 0)
        200
        (channel peer [])
        (sends one_byte (values_to 20 after.sent))
      ≡ some (c, map (λ v. was_sent true) vs))
    × (receive_each 1 (λ n i. 0) 200 (length (values_to 20 after.sent)) c
        ≡ some (channel peer [], map some vs))
    × (read_values (track (text "eth0")) (macs 20 (text "eth0") daemon) vs
        ≡ macs 20 (text "eth0") after.daemon)
    × (read_values track_names (device_names daemon) vs ≡ device_names after.daemon)
receive_each-Followed_example =
    receive_each-Followed seconds 20 (text "eth0") 1 (λ n i. 0) 200 peer one_byte one_round
      network-Inv one_byte-Bounded one_byte-Progress short.0 (omega arith) short.1
