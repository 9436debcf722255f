-- ===== src/Daemon/Tests.antt =====
-- The laws of macdetectd/src/Daemon.cpp on a daemon with two serving sockets and three streams.
use macdetect.Base.{ℕ, ◌≡◌, not, [], ◌∷◌, List, some, none, true, false, any, text}
use macdetect.Value.{Value, value, nil, cons}
use macdetect.Network.Samples.{seconds, network}
use macdetect.Server.{started, Serving, Server, QueuedValue}
use macdetect.Daemon.Requests.{handle_values}
use macdetect.Daemon.RequestLaws.{is_request, handle_values-fails}
use macdetect.Daemon.{Stream, Daemon}

abbrev streams : List Stream
streams =
    record { served = 20; device_name = text "eth0" }
    ∷ record { served = 21; device_name = text "eth1" }
    ∷ record { served = 20; device_name = text "eth1" }
    ∷ []

abbrev on_wire : Serving
on_wire = record { status = started; id = 0; socket = 4; device_name = text "eth0"; port = 7090 }

abbrev server : Server
server = record {
  server_name = text "home";
  run = true;
  servings = on_wire ∷ [];
  served = (20, 0) ∷ (21, 0) ∷ [];
  value_queue = [];
  removed = [];
}

abbrev daemon : Daemon ℕ
daemon = record {
  identifier = text "home";
  server = server;
  network = network;
  streams = streams;
  last_keep_alive = 1;
  keep_alive_interval = 6;
}

abbrev device : Value
device = value (text "device-name") (text "eth1") nil

-- Client 21 asks for the end of its stream of eth1, through the socket of eth0.
abbrev end_request : QueuedValue
end_request = record {
  value = value (text "request") (text "disable-stream") (cons device nil);
  served = 21;
  serving_id = 0;
}

abbrev greeting : QueuedValue
greeting = record { value = value (text "info") (text "hello") nil; served = 21; serving_id = 0 }

handle_values-fails_example :
    (elim (handle_values seconds daemon (end_request ∷ greeting ∷ [])) [
      | none ↦ true
      | some _ ↦ false
    ])
    ≡ any (λ q. not (is_request q)) (end_request ∷ greeting ∷ [])
handle_values-fails_example = handle_values-fails seconds daemon (end_request ∷ greeting ∷ [])
