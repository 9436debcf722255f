-- ===== src/Daemon/Following.antt =====
-- A client that follows a device, in the third loop of `Daemon::cycle` of macdetectd/src/Daemon.cpp.
use macdetect.Base.{
  ℕ, Bool, true, List, [], ◌∷◌, Text, length, reject, ◌≡◌, refl, sym, ap, ◌∙◌, arith,
}
use macdetect.Event.{
  EventType, device_added, device_removed, device_state_changed, mac_address_discovered,
  mac_address_disappeared, device_evidence_changed, mac_evidence_changed, Event,
}
use macdetect.Network.System.{System}
use macdetect.Network.Evidence.{or_else}
use macdetect.Network.Replay.{Pair, follow, replay}
use macdetect.Server.Connections.{connections}
use macdetect.Daemon.Streams.{stream_enabled}
use macdetect.Daemon.StreamLaws.{erase_streams_lem}
use macdetect.Daemon.Notices.{of_device, end_streams, handle_event, handle_events}
use macdetect.Daemon.Fold.{read_all, read_all-append}
use macdetect.Daemon.View.{track, track_all, follow_on, macs_on, macs_on-follow}
use macdetect.Daemon.Delivery.{track_all-IsSilent, end_streams-IsSilent, told, told_lem}
use macdetect.Daemon.{Stream, Daemon}

reject_enabled :
    (p : Stream → Bool) (streams : List Stream) (h : ℕ) (name : Text)
    → stream_enabled (reject p streams) h name ≡ true
    → stream_enabled streams h name ≡ true
unfolding stream_enabled
reject_enabled p [] h name on = on
reject_enabled p (s ∷ ss) h name on = ground (arith, on, reject_enabled p ss h name)

-- No event begins a stream.
end_streams_enabled :
    (t : EventType) (dev : Text) (streams : List Stream) (h : ℕ) (name : Text)
    → stream_enabled (end_streams t dev streams).0 h name ≡ true
    → stream_enabled streams h name ≡ true
unfolding end_streams
end_streams_enabled device_removed dev streams h name on =
    reject_enabled (of_device dev) streams h name (
      ap (λ r. stream_enabled r.0 h name)
        (sym (erase_streams_lem (of_device dev) (length streams) streams (omega arith)))
      ∙ on)
end_streams_enabled device_added dev streams h name on = on
end_streams_enabled device_state_changed dev streams h name on = on
end_streams_enabled mac_address_discovered dev streams h name on = on
end_streams_enabled mac_address_disappeared dev streams h name on = on
end_streams_enabled device_evidence_changed dev streams h name on = on
end_streams_enabled mac_evidence_changed dev streams h name on = on

module _ {D : Type 0} (sys : System D) (h : ℕ) (name : Text) where
  handle_events_enabled :
      (d : Daemon D) (es : List Event)
      → stream_enabled (handle_events sys d es).0.streams h name ≡ true
      → stream_enabled d.streams h name ≡ true
  unfolding handle_events handle_event
  handle_events_enabled d [] on = on
  handle_events_enabled d (e ∷ es) on =
      end_streams_enabled e.event_type e.device_name d.streams h name
        (handle_events_enabled (handle_event sys d e).0 es on)

  track_all-handle_event :
      (d : Daemon D) (e : Event) (ms : List Text)
      → connections h d.server.served ≡ 1
      → stream_enabled (handle_event sys d e).0.streams h name ≡ true
      → track_all h name ms (handle_event sys d e).1
        ≡ follow_on name ms e.event_type e.device_name (or_else e.mac_address [])
  unfolding handle_event
  track_all-handle_event d e ms once on =
      let ended = end_streams e.event_type e.device_name d.streams in
      let notices = told sys d.network ended.0 d.server.served e.event_type e in
      read_all-append (track name) h ms ended.1 notices
      ∙ ap (λ m. track_all h name m notices)
          (track_all-IsSilent h name ms ended.1
            (end_streams-IsSilent e.event_type e.device_name d.streams))
      ∙ told_lem sys d.network ended.0 d.server.served h name ms e.event_type e once on

  -- The notices of a round's events, to a client that still follows a device behind them and stands
  -- among the clients once: from them it learns of this device what the events tell.
  pub track_all-handle_events :
      (d : Daemon D) (es : List Event) (ps : List Pair)
      → connections h d.server.served ≡ 1
      → stream_enabled (handle_events sys d es).0.streams h name ≡ true
      → track_all h name (macs_on name ps) (handle_events sys d es).1 ≡ macs_on name (replay ps es)
  unfolding handle_events replay read_all
  track_all-handle_events d [] ps once on = refl
  track_all-handle_events d (e ∷ es) ps once on =
      let (d', sent) = handle_event sys d e in
      let here = handle_events_enabled d' es on in
      let ps' = follow ps e.event_type e.device_name e.mac_address in
      read_all-append (track name) h (macs_on name ps) sent (handle_events sys d' es).1
      ∙ ap (λ m. track_all h name m (handle_events sys d' es).1)
          (track_all-handle_event d e (macs_on name ps) once here
            ∙ sym (macs_on-follow name ps e.event_type e.device_name e.mac_address))
      ∙ track_all-handle_events d' es ps' (unfold handle_event in once) on

  -- The events change nothing but the streams.
  pub handle_events_rest :
      (d : Daemon D) (es : List Event)
      → ((handle_events sys d es).0.server ≡ d.server)
        × ((handle_events sys d es).0.network ≡ d.network)
  unfolding handle_events handle_event
  handle_events_rest d [] = (refl, refl)
  handle_events_rest d (e ∷ es) = handle_events_rest (handle_event sys d e).0 es
