-- ===== src/Server/Tests.antt =====
-- The laws of macdetectd/src/Server.cpp on a server with three sockets, of which one is new and one
-- is broken.
use macdetect.Base.{str_eq, ◌+◌, ◌≡◌, [], ◌∷◌, List, map, refl, true, select, text, ◌==◌}
use macdetect.Server.{invalid, started, stopped, Serving, Server, accepted, Clients, cycle}
use macdetect.Server.Received.{nothing}
use macdetect.Server.Ids.{Distinct}
use macdetect.Server.Loops.{outlives, as_started, cycle_servings}

abbrev on_wire : Serving
on_wire = record { status = started; id = 0; socket = 4; device_name = text "eth0"; port = 7090 }

abbrev broken : Serving
broken = record { status = invalid; id = 1; socket = 5; device_name = text "eth1"; port = 7090 }

abbrev on_air : Serving
on_air = record { status = stopped; id = 3; socket = 6; device_name = text "wlan0"; port = 7090 }

abbrev three : List Serving
three = on_wire ∷ broken ∷ on_air ∷ []

abbrev server : Server
server = record {
  server_name = text "home";
  run = true;
  servings = three;
  served = (20, 0) ∷ (21, 0) ∷ [];
  value_queue = [];
  removed = [];
}

-- Each socket listens and accepts a client; client 20 is gone.
abbrev clients : Clients
clients = record {
  answer = λ v. record { listens = true; accept = accepted (30 + v.id) };
  received = λ h. nothing (h == 20);
}

three-Distinct : Distinct three
unfolding text str_eq
three-Distinct = (refl, refl, (refl, refl, (refl, refl, tt)))

cycle_servings_example :
    (cycle clients server).0.servings
    ≡ map as_started (select (λ v. outlives (clients.answer v) v) server.servings)
cycle_servings_example = cycle_servings clients server refl
