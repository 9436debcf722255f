-- ===== src/Network/NamesKept.antt =====
-- The events of macdetectd/src/Network.cpp lead from the names of the devices before an operation to
-- those after it: removing devices, and operations that keep them.
use macdetect.Base.{
  Bool, true, false, List, [], ◌∷◌, ◌++◌, map, Text, text, str_eq, remove_text, take_first, length,
  All, append_assoc, append-nil, select, ◌≡◌, refl, sym, ap, ◌∙◌, Bool-cases, Option-cases, inl,
  inr, arith,
}
use macdetect.Device.{Device}
use macdetect.Event.{
  Event, mac_event, device_event, device_added, device_removed, device_evidence_changed,
  set_evidence,
}
use macdetect.Network.Macs.{disappeared}
use macdetect.Network.Devices.{without_device, remove_device, remove_devices}
use macdetect.Network.Cycle.{when}
use macdetect.Network.Loops.{gone, on_device, remove_device_macs_lem}
use macdetect.Network.Names.{
  names, follow_names, replay_names, replay_names-append, IsAside, replay_names-IsAside,
}
use macdetect.Network.Steady.{Keeps}
use macdetect.Network.{MacEntity, Network, schedule_event}

pub map-IsAside :
    {A : Type 0} (f : A → Event) (xs : List A) → ((x : A) → IsAside (f x)) → All IsAside (map f xs)
map-IsAside f [] h = tt
map-IsAside f (x ∷ xs) h = (h x, map-IsAside f xs h)

pub disappeared-IsAside : (dev mac : Text) → IsAside (disappeared dev mac)
unfolding follow_names mac_event device_event
disappeared-IsAside dev mac ns = refl

pub when-IsAside : (b : Bool) (e : Event) → IsAside e → All IsAside (when b e)
when-IsAside true e h = (h, tt)
when-IsAside false e h = tt

pub added-replay :
    (ns : List Text) (name mac : Text)
    → replay_names ns (
        device_event device_added name
        ∷ set_evidence (device_event device_evidence_changed name) (text "mac") mac []
        ∷ [])
      ≡ ns ++ name ∷ []
unfolding replay_names follow_names device_event set_evidence
added-replay ns name mac = refl

module _ {D : Type 0} where
  -- The events that an operation schedules lead from the names of the devices before it to those after
  -- it.
  pub record Names (n n' : Network D) : Type 0 where
    pub scheduled : List Event
    pub logged : n'.events ≡ n.events ++ scheduled
    pub followed : replay_names (names n.devices) scheduled ≡ names n'.devices

  pub aside-Names :
      (n n' : Network D) (es : List Event)
      → names n'.devices ≡ names n.devices
      → n'.events ≡ n.events ++ es
      → All IsAside es
      → Names n n'
  aside-Names n n' es same logged aside = record {
    scheduled = es;
    logged = logged;
    followed = replay_names-IsAside (names n.devices) es aside ∙ sym same;
  }

  pub Names-refl : (n : Network D) → Names n n
  Names-refl n = aside-Names n n [] refl (sym (append-nil n.events)) tt

  pub Names-trans : {n m k : Network D} → Names n m → Names m k → Names n k
  Names-trans {n} {m} {k} s t = record {
    scheduled = s.scheduled ++ t.scheduled;
    logged =
        t.logged
        ∙ ap (λ l. l ++ t.scheduled) s.logged
        ∙ append_assoc n.events s.scheduled t.scheduled;
    followed =
        replay_names-append (names n.devices) s.scheduled t.scheduled
        ∙ ap (λ ns. replay_names ns t.scheduled) s.followed
        ∙ t.followed;
  }

  pub Keeps-Names : (n n' : Network D) → Keeps n n' → Names n n'
  Keeps-Names n n' k = aside-Names n n' k.scheduled (ap (λ l. names l.0) k.kept) k.logged k.aside

  pub names-append :
      (ds : List (Device D)) (d : Device D) → names (ds ++ d ∷ []) ≡ names ds ++ d.device_name ∷ []
  names-append [] d = refl
  names-append (x ∷ ds) d = ap (◌∷◌ x.device_name) (names-append ds d)

  names-without_device :
      (ds : List (Device D)) (name : Text)
      → names (without_device ds name) ≡ remove_text name (names ds)
  unfolding without_device remove_text take_first
  names-without_device [] name = refl
  names-without_device (d ∷ ds) name =
      let ih = names-without_device ds name in
      elim (Bool-cases (str_eq d.device_name name)) [
        | inl same ↦ rw (without_device, same)
        | inr other ↦
            elim (Option-cases (take_first (λ (e : Device D). str_eq e.device_name name) ds)) [
              | inl e ↦
                  let tail : without_device ds name ≡ ds = rw (without_device, e) in
                  rw (without_device, other, e) (ap (◌∷◌ d.device_name) (ap names (sym tail) ∙ ih))
              | inr (r, e) ↦
                  let tail : without_device ds name ≡ r.1 = rw (without_device, e) in
                  rw (without_device, other, e) (ap (◌∷◌ d.device_name) (ap names (sym tail) ∙ ih))
            ]
      ]

  remove_device-Names : (n : Network D) (name : Text) → Names n (remove_device n name).0
  unfolding remove_device
  remove_device-Names n name =
      let e = device_event device_removed name in
      let n' = schedule_event (record n { devices = without_device n.devices name }) e in
      let silenced =
        map (λ (x : MacEntity D). disappeared name x.mac) (select (on_device name) n.macs_seen) in
      let first : Names n n' = record {
        scheduled = e ∷ [];
        logged = refl;
        followed =
            unfold replay_names follow_names device_event in
            sym (names-without_device n.devices name);
      } in
      rw (remove_device_macs_lem (length n.macs_seen) n' name (omega arith)) (
        Names-trans first (
          aside-Names n' _ silenced refl refl (
            map-IsAside (λ (x : MacEntity D). disappeared name x.mac) _
              (λ x. disappeared-IsAside name x.mac))))

  pub remove_devices-Names : (n : Network D) (gone : List Text) → Names n (remove_devices n gone)
  unfolding remove_devices
  remove_devices-Names n [] = Names-refl n
  remove_devices-Names n (name ∷ gone) =
      Names-trans (remove_device-Names n name) (remove_devices-Names (remove_device n name).0 gone)
