-- ===== src/Network/Names.antt =====
-- What a client can know of the devices that macdetectd/src/Network.cpp knows: it starts from their
-- names, and follows the events.
use macdetect.Base.{List, [], ◌∷◌, ◌++◌, map, Text, remove_text, All, ◌≡◌, refl}
use macdetect.Event.{Event, EventType, device_added, device_removed}
use macdetect.Device.{Device}

abbrev pub names : {D : Type 0} → List (Device D) → List Text
names ds = map (λ d. d.device_name) ds

-- The client puts a device that is added at the end, and takes one out that is removed.
unfoldable pub follow_names : List Text → EventType → Text → List Text
follow_names ns device_added name = ns ++ name ∷ []
follow_names ns device_removed name = remove_text name ns
follow_names ns _ name = ns

unfoldable pub replay_names : List Text → List Event → List Text
replay_names ns [] = ns
replay_names ns (e ∷ es) = replay_names (follow_names ns e.event_type e.device_name) es

pub replay_names-append :
    (ns : List Text) (es fs : List Event)
    → replay_names ns (es ++ fs) ≡ replay_names (replay_names ns es) fs
unfolding replay_names
replay_names-append ns [] fs = refl
replay_names-append ns (e ∷ es) fs =
    replay_names-append (follow_names ns e.event_type e.device_name) es fs

-- An event that neither adds nor removes a device.
abbrev pub IsAside : Event → Type 0
IsAside e = (ns : List Text) → follow_names ns e.event_type e.device_name ≡ ns

pub replay_names-IsAside :
    (ns : List Text) (es : List Event) → All IsAside es → replay_names ns es ≡ ns
unfolding replay_names
replay_names-IsAside ns [] h = refl
replay_names-IsAside ns (e ∷ es) h = rw (h.0 ns) (replay_names-IsAside ns es h.1)
