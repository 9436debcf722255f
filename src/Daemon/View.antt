-- ===== src/Daemon/View.antt =====
-- What a client can know of the addresses on a device from the values that macdetectd/src/Daemon.cpp
-- sends to it.
use macdetect.Base.{
  ℕ, ◌&&◌, List, [], ◌∷◌, ◌++◌, Option, none, some, Text, text, str_eq, str_eq_iff, remove_text,
  if◌then◌else◌, ◌≡◌, refl, arith,
}
use macdetect.Value.{Value, key, content, sub, find_key, add, add_pair, add_pairs, push_back, set}
use macdetect.Event.{
  EventType, device_added, device_removed, device_state_changed, mac_address_discovered,
  mac_address_disappeared, device_evidence_changed, mac_evidence_changed, Event,
}
use macdetect.Network.System.{System}
use macdetect.Network.Evidence.{or_else}
use macdetect.Network.Replay.{Pair, remove_pair, follow}
use macdetect.Network.{Network}
use macdetect.Server.{Sent}
use macdetect.Daemon.Fold.{read_all}
use macdetect.Daemon.Notices.{notice}

-- The addresses on a device.
unfoldable pub macs_on : Text → List Pair → List Text
macs_on name [] = []
macs_on name ((d, m) ∷ ps) = if str_eq d name then m ∷ macs_on name ps else macs_on name ps

-- What a value has under a key.
unfoldable pub field : Value → Text → Text
field v k = elim (sub v k) [ some x ↦ content x | none ↦ [] ]

-- The client reads the notices about one device: it puts an address that is discovered at the end of
-- its list, and takes one out that has disappeared. It reads no other value.
unfoldable pub track : Text → List Text → Value → List Text
unfolding field
track name ms v =
    if str_eq (key v) (text "info") && str_eq (field v (text "device-name")) name
    then if str_eq (content v) (text "mac-address-discovered")
      then ms ++ (field v (text "mac") ∷ [])
      else if str_eq (content v) (text "mac-address-disappeared")
      then remove_text (field v (text "mac")) ms
      else ms
    else ms

-- The values to a client, in their order.
abbrev pub track_all : ℕ → Text → List Text → Sent → List Text
track_all h name ms sent = read_all (track name) h ms sent

-- What an event tells of one device.
unfoldable pub follow_on : Text → List Text → EventType → Text → Text → List Text
follow_on name ms mac_address_discovered dev mac = if str_eq dev name then ms ++ mac ∷ [] else ms
follow_on name ms mac_address_disappeared dev mac =
    if str_eq dev name then remove_text mac ms else ms
follow_on name ms _ dev mac = ms

macs_on-concat :
    (name d m : Text) (ps : List Pair)
    → macs_on name (ps ++ (d, m) ∷ [])
      ≡ (if str_eq d name then macs_on name ps ++ m ∷ [] else macs_on name ps)
unfolding macs_on
macs_on-concat name d m [] = ground arith
macs_on-concat name d m ((d', m') ∷ ps) = ground (arith, macs_on-concat name d m ps)

macs_on-remove_pair :
    (name dev mac : Text) (ps : List Pair)
    → macs_on name (remove_pair dev mac ps)
      ≡ (if str_eq dev name then remove_text mac (macs_on name ps) else macs_on name ps)
unfolding macs_on remove_pair remove_text
macs_on-remove_pair name dev mac [] = ground arith
macs_on-remove_pair name dev mac ((d, m) ∷ ps) = ground (
  arith,
  macs_on-remove_pair name dev mac ps,
  str_eq_iff d dev,
  str_eq_iff d name,
  str_eq_iff dev name,
)

pub macs_on-follow :
    (name : Text) (ps : List Pair) (t : EventType) (dev : Text) (mac : Option Text)
    → macs_on name (follow ps t dev mac) ≡ follow_on name (macs_on name ps) t dev (or_else mac [])
unfolding follow follow_on
macs_on-follow name ps mac_address_discovered dev mac = macs_on-concat name dev (or_else mac []) ps
macs_on-follow name ps mac_address_disappeared dev mac =
    macs_on-remove_pair name dev (or_else mac []) ps
macs_on-follow name ps device_added dev mac = refl
macs_on-follow name ps device_removed dev mac = refl
macs_on-follow name ps device_state_changed dev mac = refl
macs_on-follow name ps device_evidence_changed dev mac = refl
macs_on-follow name ps mac_evidence_changed dev mac = refl

-- The client learns from the notice of an event what the event tells.
pub track-notice :
    {D : Type 0} (sys : System D) (n : Network D) (name : Text) (ms : List Text) (e : Event)
    (t : EventType)
    → track name ms (notice sys n t e)
      ≡ follow_on name ms t e.device_name (or_else e.mac_address [])
unfolding track follow_on notice text str_eq key content sub find_key add add_pair add_pairs
    push_back set
track-notice sys n name ms e mac_address_discovered = refl
track-notice sys n name ms e mac_address_disappeared = refl
track-notice sys n name ms e device_added = ground arith
track-notice sys n name ms e device_removed = ground arith
track-notice sys n name ms e device_state_changed = ground arith
track-notice sys n name ms e device_evidence_changed = ground arith
track-notice sys n name ms e mac_evidence_changed = ground arith
