-- ===== src/Network/Replay.antt =====
-- What a client can know of the addresses that macdetectd/src/Network.cpp has seen: it starts from
-- the known pairs of a device and an address, and follows the events.
use macdetect.Base.{
  Bool, false, ◌&&◌, ◌||◌, List, [], ◌∷◌, ◌++◌, Text, str_eq, str_eq_iff, str_eq_refl, ◌≡◌, refl,
  ap, arith, if◌then◌else◌, Option, any,
}
use macdetect.Event.{Event, EventType, mac_address_discovered, mac_address_disappeared}
use macdetect.Network.{MacEntity}
use macdetect.Network.Macs.{matches}
use macdetect.Network.Evidence.{or_else}

-- A device and an address on it.
abbrev pub Pair : Type 0
Pair = Text × Text

abbrev pub pairs : {D : Type 0} → List (MacEntity D) → List Pair
pairs [] = []
pairs (e ∷ es) = (e.device_name, e.mac) ∷ pairs es

unfoldable pub has : Text → Text → List Pair → Bool
has dev mac [] = false
has dev mac ((d, m) ∷ ps) = str_eq d dev && str_eq m mac || has dev mac ps

unfoldable pub remove_pair : Text → Text → List Pair → List Pair
remove_pair dev mac [] = []
remove_pair dev mac ((d, m) ∷ ps) =
    if str_eq d dev && str_eq m mac then ps else (d, m) ∷ remove_pair dev mac ps

-- The client adds a pair that is discovered at the end, and removes one that has disappeared.
unfoldable pub follow : List Pair → EventType → Text → Option Text → List Pair
follow ps mac_address_discovered dev mac = ps ++ (dev, or_else mac []) ∷ []
follow ps mac_address_disappeared dev mac = remove_pair dev (or_else mac []) ps
follow ps _ dev mac = ps

unfoldable pub replay : List Pair → List Event → List Pair
replay ps [] = ps
replay ps (e ∷ es) = replay (follow ps e.event_type e.device_name e.mac_address) es

pub replay-append :
    (ps : List Pair) (es fs : List Event) → replay ps (es ++ fs) ≡ replay (replay ps es) fs
unfolding replay
replay-append ps [] fs = refl
replay-append ps (e ∷ es) fs =
    replay-append (follow ps e.event_type e.device_name e.mac_address) es fs

pub pairs-append :
    {D : Type 0} (xs ys : List (MacEntity D)) → pairs (xs ++ ys) ≡ pairs xs ++ pairs ys
pairs-append [] ys = refl
pairs-append (x ∷ xs) ys = ap (◌∷◌ (x.device_name, x.mac)) (pairs-append xs ys)

pub has-pairs :
    {D : Type 0} (dev mac : Text) (es : List (MacEntity D))
    → any (matches dev mac) es ≡ has dev mac (pairs es)
unfolding has
has-pairs dev mac [] = refl
has-pairs dev mac (e ∷ es) = rw (has-pairs dev mac es)

-- No pair stands in the list twice.
abbrev pub Distinct : List Pair → Type 0
Distinct [] = Unit {0}
Distinct ((d, m) ∷ ps) = (has d m ps ≡ false) × Distinct ps

pub remove_pair-middle :
    (d m : Text) (ps qs : List Pair)
    → has d m ps ≡ false
    → remove_pair d m (ps ++ (d, m) ∷ qs) ≡ ps ++ qs
unfolding has remove_pair
remove_pair-middle d m [] qs h = rw (str_eq_refl d, str_eq_refl m)
remove_pair-middle d m ((d', m') ∷ ps) qs h = ground (arith, remove_pair-middle d m ps qs)

has-append : (d m : Text) (ps qs : List Pair) → has d m (ps ++ qs) ≡ has d m ps || has d m qs
unfolding has
has-append d m [] qs = refl
has-append d m ((d', m') ∷ ps) qs = ground (arith, has-append d m ps qs)

pub Distinct-middle :
    (d m : Text) (ps qs : List Pair)
    → Distinct (ps ++ (d, m) ∷ qs)
    → (has d m ps ≡ false) × Distinct (ps ++ qs)
unfolding has
Distinct-middle d m [] qs h = (refl, h.1)
Distinct-middle d m ((d', m') ∷ ps) qs h =
    let (free, rest) = Distinct-middle d m ps qs h.1 in
    ground (
      arith,
      has-append d' m' ps qs,
      has-append d' m' ps ((d, m) ∷ qs),
      str_eq_iff d d',
      str_eq_iff d' d,
      str_eq_iff m m',
      str_eq_iff m' m,
    )

pub Distinct-concat :
    (d m : Text) (ps : List Pair) → Distinct ps → has d m ps ≡ false → Distinct (ps ++ (d, m) ∷ [])
unfolding has
Distinct-concat d m [] h k = (refl, tt)
Distinct-concat d m ((d', m') ∷ ps) h k = ground (
  arith,
  has-append d' m' ps ((d, m) ∷ []),
  Distinct-concat d m ps h.1,
  str_eq_iff d d',
  str_eq_iff d' d,
  str_eq_iff m m',
  str_eq_iff m' m,
)
