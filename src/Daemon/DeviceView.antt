-- ===== src/Daemon/DeviceView.antt =====
-- What a client can know of the devices from the values that macdetectd/src/Daemon.cpp sends to it.
use macdetect.Base.{
  ℕ, List, [], ◌∷◌, ◌++◌, Text, text, str_eq, str_eq_iff, remove_text, if◌then◌else◌, length, All,
  ◌≡◌, refl, sym, ap, ◌∙◌, Bool-cases, inl, inr, arith,
}
use macdetect.Doubles.{Doubles}
use macdetect.Value.{
  Value, key, content, sub, find_key, add, add_pair, add_pairs, push_back, set, make,
}
use macdetect.Event.{
  EventType, device_added, device_removed, device_state_changed, mac_address_discovered,
  mac_address_disappeared, device_evidence_changed, mac_evidence_changed, Event,
}
use macdetect.Network.System.{System}
use macdetect.Network.Names.{follow_names, replay_names}
use macdetect.Network.{Network}
use macdetect.Server.{Server, Clients, hello, cycle as server_cycle}
use macdetect.Server.Connections.{connections}
use macdetect.Daemon.Streams.{erase_streams}
use macdetect.Daemon.Fold.{
  read_all, read_all-append, read_all-IsUnread, read_copies_quiet, read_copies_once, IsUnread,
  copies-IsUnread,
}
use macdetect.Daemon.Notices.{
  notice, audience, receivers, of_device, stream_disabled, end_streams, handle_event, handle_events,
}
use macdetect.Daemon.Cycle.{keep_alive, keep_alive_value}
use macdetect.Daemon.View.{field}
use macdetect.Daemon.Delivery.{told, connections-receivers}
use macdetect.Daemon.{Stream, Daemon}

-- The client reads the notices about devices: it puts a device that is added at the end of its list,
-- and takes one out that is removed. It reads no other value.
unfoldable pub track_names : List Text → Value → List Text
unfolding field
track_names ns v =
    if str_eq (key v) (text "info")
    then if str_eq (content v) (text "device-added")
      then ns ++ (field v (text "device-name") ∷ [])
      else if str_eq (content v) (text "device-removed")
      then remove_text (field v (text "device-name")) ns
      else ns
    else ns

track_names-notice :
    {D : Type 0} (sys : System D) (n : Network D) (ns : List Text) (e : Event) (t : EventType)
    → track_names ns (notice sys n t e) ≡ follow_names ns t e.device_name
unfolding track_names follow_names notice text str_eq key content sub find_key add add_pair
    add_pairs push_back set
track_names-notice sys n ns e mac_address_discovered = refl
track_names-notice sys n ns e mac_address_disappeared = refl
track_names-notice sys n ns e device_added = refl
track_names-notice sys n ns e device_removed = refl
track_names-notice sys n ns e device_state_changed = ground arith
track_names-notice sys n ns e device_evidence_changed = refl
track_names-notice sys n ns e mac_evidence_changed = refl

-- A value that tells nothing of any device.
abbrev pub IsApart : ℕ × Value → Type 0
IsApart = IsUnread track_names

pub response-IsApart : (c : Text) (x : Value) → IsApart (0, add (make (text "response") c []) x)
unfolding track_names text str_eq key add make add_pairs
response-IsApart c x ns = refl

keep_alive_value-IsApart : IsApart (0, keep_alive_value)
unfolding track_names text str_eq key content make add_pairs
keep_alive_value-IsApart ns = refl

hello-IsApart : (server_name : Text) → IsApart (0, hello server_name)
unfolding track_names hello text str_eq key content add make add_pairs sub find_key push_back
hello-IsApart server_name ns = refl

stream_disabled-IsApart : (dev : Text) → IsApart (0, stream_disabled dev)
unfolding stream_disabled track_names text str_eq key content set make add_pairs add_pair add
    push_back
stream_disabled-IsApart dev ns = refl

end_streams-IsApart :
    (t : EventType) (dev : Text) (streams : List Stream) → All IsApart (end_streams t dev streams).1
unfolding end_streams
end_streams-IsApart device_removed dev streams =
    copies-IsUnread track_names (λ (s : Stream). s.served) (stream_disabled dev)
      (erase_streams (of_device dev) (length streams) streams).1 (stream_disabled-IsApart dev)
end_streams-IsApart device_added dev streams = tt
end_streams-IsApart device_state_changed dev streams = tt
end_streams-IsApart mac_address_discovered dev streams = tt
end_streams-IsApart mac_address_disappeared dev streams = tt
end_streams-IsApart device_evidence_changed dev streams = tt
end_streams-IsApart mac_evidence_changed dev streams = tt

pub server_cycle-IsApart : (env : Clients) (s : Server) → All IsApart (server_cycle env s).1
unfolding server_cycle
server_cycle-IsApart env s = elim (Bool-cases s.run) [
  | inl up ↦ rw up (
      copies-IsUnread track_names (λ (c : ℕ × ℕ). c.0) (hello s.server_name) _
        (hello-IsApart s.server_name))
  | inr down ↦ rw down tt
]

pub keep_alive-IsApart :
    {D : Type 0} (dbl : Doubles D) (now : D) (d : Daemon D) → All IsApart (keep_alive dbl now d).1
unfolding keep_alive
keep_alive-IsApart dbl now d =
    elim (Bool-cases (dbl.gt now (dbl.plus d.last_keep_alive d.keep_alive_interval))) [
      | inl due ↦ rw due (
          copies-IsUnread track_names (λ (c : ℕ × ℕ). c.0) keep_alive_value d.server.served
            keep_alive_value-IsApart)
      | inr early ↦ rw early tt
    ]

module _ {D : Type 0} (sys : System D) (h : ℕ) where
  told_aside :
      (n : Network D) (streams : List Stream) (clients : List (ℕ × ℕ)) (ns : List Text)
      (t : EventType) (e : Event)
      → follow_names ns t e.device_name ≡ ns
      → read_all track_names h ns (told sys n streams clients t e) ≡ follow_names ns t e.device_name
  told_aside n streams clients ns t e quiet =
      read_copies_quiet track_names h ns (notice sys n t e)
        (receivers streams (audience t e.device_name) clients)
        (track_names-notice sys n ns e t ∙ quiet)
      ∙ sym quiet

  told_everyone :
      (n : Network D) (streams : List Stream) (clients : List (ℕ × ℕ)) (ns : List Text)
      (t : EventType) (e : Event)
      → connections h clients ≡ 1
      → audience t e.device_name ≡ []
      → read_all track_names h ns (told sys n streams clients t e) ≡ follow_names ns t e.device_name
  told_everyone n streams clients ns t e once to =
      let count = connections-receivers streams (audience t e.device_name) h clients in
      read_copies_once track_names h ns (notice sys n t e)
        (receivers streams (audience t e.device_name) clients)
        (ground (arith, count, (str_eq_iff (audience t e.device_name) []).1 to, once))
      ∙ track_names-notice sys n ns e t

  -- Each client that stands among the clients once learns from the notices of an event just what the
  -- event tells of the devices.
  told_names :
      (n : Network D) (streams : List Stream) (clients : List (ℕ × ℕ)) (ns : List Text)
      (t : EventType) (e : Event)
      → connections h clients ≡ 1
      → read_all track_names h ns (told sys n streams clients t e) ≡ follow_names ns t e.device_name
  unfolding follow_names audience
  told_names n streams clients ns device_added e once =
      told_everyone n streams clients ns device_added e once refl
  told_names n streams clients ns device_removed e once =
      told_everyone n streams clients ns device_removed e once refl
  told_names n streams clients ns device_state_changed e once =
      told_aside n streams clients ns device_state_changed e refl
  told_names n streams clients ns device_evidence_changed e once =
      told_aside n streams clients ns device_evidence_changed e refl
  told_names n streams clients ns mac_address_discovered e once =
      told_aside n streams clients ns mac_address_discovered e refl
  told_names n streams clients ns mac_address_disappeared e once =
      told_aside n streams clients ns mac_address_disappeared e refl
  told_names n streams clients ns mac_evidence_changed e once =
      told_aside n streams clients ns mac_evidence_changed e refl

  pub read_names-handle_events :
      (d : Daemon D) (es : List Event) (ns : List Text)
      → connections h d.server.served ≡ 1
      → read_all track_names h ns (handle_events sys d es).1 ≡ replay_names ns es
  unfolding handle_events handle_event replay_names read_all
  read_names-handle_events d [] ns once = refl
  read_names-handle_events d (e ∷ es) ns once =
      let (d', sent) = handle_event sys d e in
      let ended = end_streams e.event_type e.device_name d.streams in
      let notices = told sys d.network ended.0 d.server.served e.event_type e in
      let ns' = follow_names ns e.event_type e.device_name in
      let here : read_all track_names h ns sent ≡ ns' =
        read_all-append track_names h ns ended.1 notices
        ∙ ap (λ m. read_all track_names h m notices)
            (read_all-IsUnread track_names h ns ended.1
              (end_streams-IsApart e.event_type e.device_name d.streams))
        ∙ told_names d.network ended.0 d.server.served ns e.event_type e once in
      read_all-append track_names h ns sent (handle_events sys d' es).1
      ∙ ap (λ m. read_all track_names h m (handle_events sys d' es).1) here
      ∙ read_names-handle_events d' es ns' once
