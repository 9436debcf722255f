-- ===== src/Daemon/Notices.antt =====
-- What macdetectd/src/Daemon.cpp tells its clients of the events of the network: the third loop of
-- `cycle`.
use macdetect.Base.{
  ℕ, Bool, true, false, ◌||◌, List, [], ◌∷◌, ◌++◌, map, Option, none, some, Text, text, str_eq,
  length, select, if◌then◌else◌,
}
use macdetect.Value.{Value, add_pairs, make, set}
use macdetect.Vendors.{vendor_name}
use macdetect.Event.{
  EventType, device_added, device_removed, device_state_changed, mac_address_discovered,
  mac_address_disappeared, device_evidence_changed, mac_evidence_changed, Event,
}
use macdetect.Network.System.{System}
use macdetect.Network.Devices.{device_hardware_type}
use macdetect.Network.Evidence.{or_else}
use macdetect.Network.{Network}
use macdetect.Server.{Sent}
use macdetect.Daemon.Streams.{stream_enabled, erase_streams}
use macdetect.Daemon.Requests.{empty_value, type_text}
use macdetect.Daemon.{Stream, Daemon}

bool_text : Option Bool → Text
bool_text (some true) = text "true"
bool_text (some false) = text "false"
bool_text none = text "false"

info : Text → List (Text × Text) → Value
info what fields = add_pairs (set empty_value (text "info") what) fields

evidence_fields : Event → List (Text × Text)
evidence_fields e =
    (text "field", e.evidence_field)
    ∷ (text "value", e.evidence_value)
    ∷ (text "value-former", e.evidence_value_former)
    ∷ []

-- The flags are set by `setUp` and `setRunning` only, which give the value too.
state_fields : Event → List (Text × Text)
unfolding bool_text
state_fields e =
    if e.state_change_up
    then (text "changed-state", text "up") ∷ (text "state", bool_text e.up) ∷ []
    else if e.state_change_running
    then (text "changed-state", text "running") ∷ (text "state", bool_text e.running) ∷ []
    else []

module _ {D : Type 0} where
  -- The value that is sent for an event. An event about an address is a MAC event always.
  unfoldable pub notice : System D → Network D → EventType → Event → Value
  unfolding info evidence_fields state_fields
  notice sys n device_added e = info (text "device-added") (
      (text "device-name", e.device_name)
      ∷ (text "hardware-type", type_text (device_hardware_type sys n e.device_name))
      ∷ [])
  notice sys n device_removed e =
      info (text "device-removed") ((text "device-name", e.device_name) ∷ [])
  notice sys n device_state_changed e = info (text "device-state-changed") (state_fields e)
  notice sys n device_evidence_changed e = info (text "device-evidence-changed") (evidence_fields e)
  notice sys n mac_address_discovered e = info (text "mac-address-discovered") (
      (text "mac", or_else e.mac_address [])
      ∷ (text "vendor", vendor_name n.vendors (or_else e.mac_address []))
      ∷ (text "device-name", e.device_name)
      ∷ [])
  notice sys n mac_address_disappeared e =
      info (text "mac-address-disappeared")
        ((text "mac", or_else e.mac_address []) ∷ (text "device-name", e.device_name) ∷ [])
  notice sys n mac_evidence_changed e =
      info (text "mac-evidence-changed")
        ((text "mac-address", or_else e.mac_address []) ∷ evidence_fields e)

-- `strDeviceName`: the device whose streams carry the event, empty for an event that all clients get.
unfoldable pub audience : EventType → Text → Text
audience mac_address_discovered name = name
audience mac_address_disappeared name = name
audience mac_evidence_changed name = name
audience _ name = []

-- The clients that get a value.
unfoldable pub receivers : List Stream → Text → List (ℕ × ℕ) → List (ℕ × ℕ)
receivers streams name clients =
    select (λ c. str_eq name [] || stream_enabled streams c.0 name) clients

abbrev pub of_device : Text → Stream → Bool
of_device name s = str_eq s.device_name name

unfoldable pub stream_disabled : Text → Value
stream_disabled name =
    add_pairs (make (text "info") (text "stream-disabled") []) ((text "device-name", name) ∷ [])

-- The streams behind an event, and the clients that are told that theirs has ended.
unfoldable pub end_streams : EventType → Text → List Stream → List Stream × Sent
unfolding stream_disabled
end_streams device_removed name streams =
    let (kept, erased) = erase_streams (of_device name) (length streams) streams in
    (kept, map (λ s. (s.served, stream_disabled name)) erased)
end_streams _ name streams = (streams, [])

module _ {D : Type 0} where
  unfoldable pub handle_event : System D → Daemon D → Event → Daemon D × Sent
  handle_event sys d e =
      let (streams, ended) = end_streams e.event_type e.device_name d.streams in
      let v = notice sys d.network e.event_type e in
      let to = receivers streams (audience e.event_type e.device_name) d.server.served in
      (record d { streams = streams }, ended ++ map (λ c. (c.0, v)) to)

  unfoldable pub handle_events : System D → Daemon D → List Event → Daemon D × Sent
  handle_events sys d [] = (d, [])
  handle_events sys d (e ∷ es) =
      let (d', sent) = handle_event sys d e in
      let (d'', more) = handle_events sys d' es in (d'', sent ++ more)
