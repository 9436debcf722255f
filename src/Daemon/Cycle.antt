-- ===== src/Daemon/Cycle.antt =====
-- `Daemon::cycle` and `Daemon::shutdown` of macdetectd/src/Daemon.cpp. The daemon is a discovery
-- server, too.
use macdetect.Base.{
  ℕ, Bool, true, false, List, [], ◌∷◌, ◌++◌, map, Option, some, text, ◌==◌, length, if◌then◌else◌,
  ◌>>=◌,
}
use macdetect.Doubles.{Doubles}
use macdetect.Value.{Value, make}
use macdetect.Network.System.{System}
use macdetect.Network.Cycle.{cycle as network_cycle, shutdown as network_shutdown}
use macdetect.Server.{
  Clients, Sent, queued_values, take_removed, cycle as server_cycle, shutdown as server_shutdown,
}
use macdetect.Discovery.Server.{discovery_cycle}
use macdetect.Daemon.Streams.{erase_streams}
use macdetect.Daemon.Requests.{handle_values}
use macdetect.Daemon.Notices.{handle_events}
use macdetect.Daemon.{Stream, Daemon}

-- The answers of a round: the system, the clients, a value on the multicast socket, and the clock at
-- the end. They are those of a round in which no `receive` reads behind the end of its buffer.
pub record Round (D : Type 0) : Type 0 where
  pub system : System D
  pub clients : Clients
  pub discovery : Option Value
  pub keep_alive_time : D

-- The first loop of `cycle`: the streams of the clients that are gone.
unfoldable pub drop_streams : List Stream → List ℕ → List Stream
drop_streams streams [] = streams
drop_streams streams (h ∷ hs) =
    drop_streams (erase_streams (λ s. s.served == h) (length streams) streams).0 hs

abbrev pub keep_alive_value : Value
keep_alive_value = make (text "info") (text "keepalive") []

-- What a round leaves: the daemon, the values to the clients, those to the multicast group, and the
-- result of `cycle`.
pub record Turn (D : Type 0) : Type 0 where
  pub daemon : Daemon D
  pub sent : Sent
  pub multicast : List Value
  pub success : Bool

module _ {D : Type 0} where
  abbrev stopped : Daemon D → Sent → Turn D
  stopped d s = record { daemon = d; sent = s; multicast = []; success = false }

  unfoldable pub keep_alive : Doubles D → D → Daemon D → Daemon D × Sent
  keep_alive dbl now d =
      if dbl.gt now (dbl.plus d.last_keep_alive d.keep_alive_interval)
      then (record d { last_keep_alive = now }, map (λ c. (c.0, keep_alive_value)) d.server.served)
      else (d, [])

  -- The body of `cycle`, behind the rounds of the network and of the server.
  unfoldable pub serve_round : Doubles D → Round D → Daemon D → Option (Turn D)
  serve_round dbl env d = do
    let (server, gone) = take_removed d.server
    let (server', values) = queued_values server
    let dropped = record d { server = server'; streams = drop_streams d.streams gone }
    (answered, replies) ← handle_values dbl dropped values
    let (noticed, notices) = handle_events env.system answered answered.network.events
    let (final, alive) = keep_alive dbl env.keep_alive_time noticed
    some (record {
      daemon = final;
      sent = replies ++ (notices ++ alive);
      multicast = discovery_cycle d.identifier env.discovery;
      success = true;
    })

  -- `cycle`; `none` is a null pointer that is followed.
  unfoldable pub cycle : Doubles D → Round D → Daemon D → Option (Turn D)
  cycle dbl env d =
      let (network, go_on) = network_cycle dbl env.system d.network in
      let watched = record d { network = network } in
      let (server, hellos, up) = server_cycle env.clients d.server in
      let rest = serve_round dbl env (record watched { server = server }) >>= λ t.
      some (record t { sent = hellos ++ t.sent }) in
      if go_on
      then if up then rest else some (stopped (record watched { server = server }) hellos)
      else some (stopped watched [])

  unfoldable pub shutdown : Daemon D → Daemon D
  shutdown d = record d { server = server_shutdown d.server; network = network_shutdown d.network }
