-- ===== src/Event.antt =====
-- macdetectd/include/macdetectd/Event.h and macdetectd/src/Event.cpp: the events of a network. The
-- program makes device events and, as a class below these, MAC events, which have an address too.
use macdetect.Base.{Bool, true, false, Option, none, some, Text, text}

pub data EventType : Type 0 where
  device_added device_removed device_state_changed : EventType
  mac_address_discovered mac_address_disappeared : EventType
  device_evidence_changed mac_evidence_changed : EventType

-- `up` and `running` are `none` where the constructor leaves them without a value, and `mac_address`
-- is `none` in an event that is no MAC event.
pub record Event : Type 0 where
  pub event_type : EventType
  pub device_name : Text
  pub state_change_up : Bool
  pub state_change_running : Bool
  pub evidence_field : Text
  pub evidence_value : Text
  pub evidence_value_former : Text
  pub up : Option Bool
  pub running : Option Bool
  pub mac_address : Option Text

unfoldable pub device_event : EventType → Text → Event
device_event t name = record {
  event_type = t;
  device_name = name;
  state_change_up = false;
  state_change_running = false;
  evidence_field = text "";
  evidence_value = text "";
  evidence_value_former = text "";
  up = none;
  running = none;
  mac_address = none;
}

unfoldable pub mac_event : EventType → Text → Text → Event
unfolding device_event
mac_event t name mac = record (device_event t name) { mac_address = some mac }

-- The setters.
abbrev pub set_state_change_up : Event → Bool → Event
set_state_change_up e b = record e { state_change_up = b }

abbrev pub set_state_change_running : Event → Bool → Event
set_state_change_running e b = record e { state_change_running = b }

abbrev pub set_up : Event → Bool → Event
set_up e b = record e { up = some b }

abbrev pub set_running : Event → Bool → Event
set_running e b = record e { running = some b }

abbrev pub set_evidence_field : Event → Text → Event
set_evidence_field e field = record e { evidence_field = field }

abbrev pub set_evidence_value : Event → Text → Event
set_evidence_value e v = record e { evidence_value = v }

abbrev pub set_evidence_value_former : Event → Text → Event
set_evidence_value_former e v = record e { evidence_value_former = v }

unfoldable pub set_evidence : Event → Text → Text → Text → Event
set_evidence e field v former =
    set_evidence_value_former (set_evidence_value (set_evidence_field e field) v) former

-- The pairs of calls of `maintainDeviceStatus`.
unfoldable pub change_up : Event → Bool → Event
change_up e b = set_up (set_state_change_up e true) b

unfoldable pub change_running : Event → Bool → Event
change_running e b = set_running (set_state_change_running e true) b
