-- ===== src/Daemon/Unasked.antt =====
-- What macdetectd/src/Daemon.cpp and macdetectd/src/Server.cpp send unasked is no response: greetings,
-- notices, the ends of streams, and signs of life.
use macdetect.Base.{
  ℕ, List, [], ◌∷◌, Text, text, str_eq, length, All, All-append, refl, Bool-cases, inl, inr, arith,
}
use macdetect.Doubles.{Doubles}
use macdetect.Value.{key, add, add_pair, add_pairs, set, make}
use macdetect.Event.{
  EventType, device_added, device_removed, device_state_changed, mac_address_discovered,
  mac_address_disappeared, device_evidence_changed, mac_evidence_changed, Event,
}
use macdetect.Network.System.{System}
use macdetect.Network.{Network}
use macdetect.Server.{Server, Clients, hello, cycle as server_cycle}
use macdetect.Daemon.Streams.{erase_streams}
use macdetect.Daemon.Notices.{
  notice, audience, receivers, of_device, stream_disabled, end_streams, handle_event, handle_events,
}
use macdetect.Daemon.Cycle.{keep_alive, keep_alive_value}
use macdetect.Daemon.Answers.{IsOther, copies-IsOther}
use macdetect.Daemon.{Stream, Daemon}

hello-IsOther : (name : Text) → IsOther (0, hello name)
unfolding hello key add make add_pairs text str_eq
hello-IsOther name = refl

keep_alive_value-IsOther : IsOther (0, keep_alive_value)
unfolding key make add_pairs text str_eq
keep_alive_value-IsOther = refl

stream_disabled-IsOther : (name : Text) → IsOther (0, stream_disabled name)
unfolding stream_disabled key add make add_pair add_pairs text str_eq
stream_disabled-IsOther name = refl

end_streams-IsOther :
    (t : EventType) (name : Text) (streams : List Stream)
    → All IsOther (end_streams t name streams).1
unfolding end_streams
end_streams-IsOther device_removed name streams =
    copies-IsOther (λ (s : Stream). s.served) (stream_disabled name)
      (erase_streams (of_device name) (length streams) streams).1 (stream_disabled-IsOther name)
end_streams-IsOther device_added name streams = tt
end_streams-IsOther device_state_changed name streams = tt
end_streams-IsOther mac_address_discovered name streams = tt
end_streams-IsOther mac_address_disappeared name streams = tt
end_streams-IsOther device_evidence_changed name streams = tt
end_streams-IsOther mac_evidence_changed name streams = tt

module _ {D : Type 0} where
  notice-IsOther :
      (sys : System D) (n : Network D) (t : EventType) (e : Event) → IsOther (0, notice sys n t e)
  unfolding notice key add add_pair add_pairs set text str_eq
  notice-IsOther sys n device_added e = refl
  notice-IsOther sys n device_removed e = refl
  notice-IsOther sys n device_state_changed e = ground arith
  notice-IsOther sys n mac_address_discovered e = refl
  notice-IsOther sys n mac_address_disappeared e = refl
  notice-IsOther sys n device_evidence_changed e = refl
  notice-IsOther sys n mac_evidence_changed e = refl

  pub handle_events-IsOther :
      (sys : System D) (d : Daemon D) (es : List Event) → All IsOther (handle_events sys d es).1
  unfolding handle_events handle_event
  handle_events-IsOther sys d [] = tt
  handle_events-IsOther sys d (e ∷ es) =
      let (d', sent) = handle_event sys d e in
      let streams = (end_streams e.event_type e.device_name d.streams).0 in
      let to = receivers streams (audience e.event_type e.device_name) d.server.served in
      All-append IsOther sent (handle_events sys d' es).1
        (All-append IsOther (end_streams e.event_type e.device_name d.streams).1 _
          (end_streams-IsOther e.event_type e.device_name d.streams)
          (copies-IsOther (λ (c : ℕ × ℕ). c.0) (notice sys d.network e.event_type e) to
            (notice-IsOther sys d.network e.event_type e)))
        (handle_events-IsOther sys d' es)

  pub keep_alive-IsOther :
      (dbl : Doubles D) (now : D) (d : Daemon D) → All IsOther (keep_alive dbl now d).1
  unfolding keep_alive
  keep_alive-IsOther dbl now d =
      elim (Bool-cases (dbl.gt now (dbl.plus d.last_keep_alive d.keep_alive_interval))) [
        | inl due ↦ rw due (
            copies-IsOther (λ (c : ℕ × ℕ). c.0) keep_alive_value d.server.served
              keep_alive_value-IsOther)
        | inr early ↦ rw early tt
      ]

pub server_cycle-IsOther : (env : Clients) (s : Server) → All IsOther (server_cycle env s).1
unfolding server_cycle
server_cycle-IsOther env s = elim (Bool-cases s.run) [
  | inl up ↦
      rw up
        (copies-IsOther (λ (c : ℕ × ℕ). c.0) (hello s.server_name) _ (hello-IsOther s.server_name))
  | inr down ↦ rw down tt
]
