-- ===== src/Client/Tests.antt =====
-- The client library at concrete inputs.
use macdetect.Base.{
  ℕ, true, false, ◌&&◌, ◌||◌, [], ◌∷◌, none, some, Text, text, str_eq, ◌==◌, ◌≡◌, ◌<◌, inr, refl,
  arith, ltb, if◌then◌else◌,
}
use macdetect.Value.{Value, value, nil}
use macdetect.Network.Samples.{seconds, network}
use macdetect.Server.{started, Serving, serving_by_id}
use macdetect.Daemon.Streams.{stream_enabled}
use macdetect.Daemon.Requests.{serving_device, handle_value, handle_values}
use macdetect.Daemon.{Daemon}
use macdetect.Client.{Client, Reception, receive, request_enable_stream, request_disable_stream}
use macdetect.Client.Laws.{IsIdle, receive_lem}
use macdetect.Client.Requests.{
  queued, answer, request_enable_stream_follows, request_disable_stream_keeps,
}

abbrev online : Client
online = record { socket = some 3; failure_state = false }

abbrev greeting : Value
greeting = value (text "info") (text "hello") nil

-- Two calls that give nothing, and a value then.
abbrev calls : ℕ → Reception
calls i =
    if ltb i 2
    then record { value = none; disconnected = false }
    else record { value = some greeting; disconnected = false }

calls-IsIdle : (j : ℕ) → j < 2 → IsIdle (calls j)
calls-IsIdle j h = ground (arith, h)

receive_lem_example :
    (receive 9 calls true ≡ some (some greeting, false, 3))
    × (receive 9 calls false ≡ some (none, false, 1))
receive_lem_example = receive_lem 9 2 calls (omega arith) calls-IsIdle (inr (greeting, refl, refl))

abbrev on_wire : Serving
on_wire = record { status = started; id = 0; socket = 4; device_name = text "eth0"; port = 7090 }

-- Client 20 follows eth0, through which it came; client 21 follows eth1.
abbrev daemon : Daemon ℕ
daemon = record {
  identifier = text "home";
  server = record {
    server_name = text "home";
    run = true;
    servings = on_wire ∷ [];
    served = (20, 0) ∷ (21, 0) ∷ [];
    value_queue = [];
    removed = [];
  };
  network = network;
  streams =
      record { served = 20; device_name = text "eth0" }
      ∷ record { served = 21; device_name = text "eth1" }
      ∷ [];
  last_keep_alive = 1;
  keep_alive_interval = 6;
}

request_enable_stream_follows_example :
    (d : Daemon ℕ) × (handle_value seconds daemon
        (queued (request_enable_stream (text "wlan0")) 21 0)
      ≡ some (d, (21, answer (text "enable-stream") (text "success") (text "wlan0")) ∷ []))
    × ((j : ℕ) (other : Text)
        → stream_enabled d.streams j other
          ≡ (21 == j && str_eq (text "wlan0") other || stream_enabled daemon.streams j other))
unfolding stream_enabled serving_device text str_eq serving_by_id
request_enable_stream_follows_example =
    request_enable_stream_follows seconds daemon 21 0 (text "wlan0") refl

request_disable_stream_keeps_example :
    (d : Daemon ℕ) × (handle_values seconds daemon (
        queued (request_enable_stream (text "wlan0")) 21 0
        ∷ queued (request_disable_stream (text "wlan0")) 21 0
        ∷ [])
      ≡ some (
        d,
        (21, answer (text "enable-stream") (text "success") (text "wlan0"))
            ∷ (21, answer (text "disable-stream") (text "already-disabled") (text "wlan0"))
            ∷ [],
      ))
    × (stream_enabled d.streams 21 (text "wlan0") ≡ true)
unfolding stream_enabled serving_device text str_eq serving_by_id
request_disable_stream_keeps_example =
    request_disable_stream_keeps seconds daemon 21 0 (text "wlan0") refl refl
