-- ===== src/Network/Known.antt =====
-- The known devices of macdetectd/src/Network.cpp, when a round of `cycle` manages them.
use macdetect.Base.{
  Bool, false, not, ◌&&◌, ◌||◌, List, [], ◌∷◌, ◌++◌, map, Text, str_eq, str_eq_iff, any, select,
  reject, take_first, length, ◌≡◌, refl, sym, ap, ◌∙◌, Bool-cases, Option-cases, inl, inr, arith,
}
use macdetect.Device.{Device}
use macdetect.Network.System.{System}
use macdetect.Network.Devices.{
  contains, device_allowed, known_device, without_device, remove_device, remove_devices,
}
use macdetect.Network.Cycle.{is_unknown}
use macdetect.Network.Loops.{remove_device_macs_lem}
use macdetect.Event.{device_event, device_removed}
use macdetect.Network.{Network, schedule_event}

-- A test that gives the same for equal names, on the names that pass it.
pub contains-select :
    (p : Text → Bool) (names : List Text) (name : Text)
    → contains (select p names) name ≡ (contains names name && p name)
contains-select p [] name = refl
contains-select p (m ∷ ms) name =
    let ih = contains-select p ms name in
    elim (Bool-cases (str_eq m name)) [
      | inl same ↦ let e = ap p ((str_eq_iff m name).0 same) in ground (arith, ih, e, same)
      | inr other ↦ ground (arith, ih, other)
    ]

pub contains-reject :
    (p : Text → Bool) (names : List Text) (name : Text)
    → contains (reject p names) name ≡ (contains names name && not (p name))
contains-reject p [] name = refl
contains-reject p (m ∷ ms) name =
    let ih = contains-reject p ms name in
    elim (Bool-cases (str_eq m name)) [
      | inl same ↦ let e = ap p ((str_eq_iff m name).0 same) in ground (arith, ih, e, same)
      | inr other ↦ ground (arith, ih, other)
    ]

module _ {D : Type 0} where
  abbrev pub is_named : Text → Device D → Bool
  is_named name d = str_eq d.device_name name

  abbrev pub knows : List (Device D) → Text → Bool
  knows ds name = any (is_named name) ds

  -- No two devices have one name.
  abbrev pub DistinctNames : List (Device D) → Type 0
  DistinctNames [] = Unit {0}
  DistinctNames (d ∷ ds) = (knows ds d.device_name ≡ false) × DistinctNames ds

  pub is_unknown-known_device :
      (ds : List (Device D)) (name : Text) → is_unknown (known_device ds name) ≡ not (knows ds name)
  unfolding known_device is_unknown
  is_unknown-known_device [] name = refl
  is_unknown-known_device (d ∷ ds) name = ground (arith, is_unknown-known_device ds name)

  pub contains-names :
      (ds : List (Device D)) (name : Text)
      → contains (map (λ d. d.device_name) ds) name ≡ knows ds name
  contains-names [] name = refl
  contains-names (d ∷ ds) name = ap (λ b. str_eq d.device_name name || b) (contains-names ds name)

  reject_unknown :
      (ds : List (Device D)) (name : Text) → knows ds name ≡ false → reject (is_named name) ds ≡ ds
  reject_unknown [] name h = refl
  reject_unknown (d ∷ ds) name h = ground (arith, h, reject_unknown ds name)

  -- With distinct names, to erase the first device of a name is to erase all.
  without_device-reject :
      (ds : List (Device D)) (name : Text)
      → DistinctNames ds
      → without_device ds name ≡ reject (is_named name) ds
  unfolding without_device take_first
  without_device-reject [] name h = refl
  without_device-reject (d ∷ ds) name h =
      let ih = without_device-reject ds name h.1 in
      elim (Bool-cases (str_eq d.device_name name)) [
        | inl same ↦
            let only : knows ds name ≡ false =
              ap (knows ds) (sym ((str_eq_iff d.device_name name).0 same)) ∙ h.0 in
            rw (without_device, same) (sym (reject_unknown ds name only))
        | inr other ↦ elim (Option-cases (take_first (is_named name) ds)) [
          | inl e ↦
              let tail : without_device ds name ≡ ds = rw (without_device, e) in
              rw (without_device, other, e) (ap (◌∷◌ d) (sym tail ∙ ih))
          | inr (r, e) ↦
              let tail : without_device ds name ≡ r.1 = rw (without_device, e) in
              rw (without_device, other, e) (ap (◌∷◌ d) (sym tail ∙ ih))
        ]
      ]

  knows-reject :
      (ds : List (Device D)) (a b : Text)
      → knows (reject (is_named a) ds) b ≡ (knows ds b && not (str_eq a b))
  knows-reject [] a b = refl
  knows-reject (d ∷ ds) a b = ground (
    arith,
    knows-reject ds a b,
    str_eq_iff d.device_name a,
    str_eq_iff d.device_name b,
    str_eq_iff a b,
  )

  reject-DistinctNames :
      (ds : List (Device D)) (a : Text) → DistinctNames ds → DistinctNames (reject (is_named a) ds)
  reject-DistinctNames [] a h = tt
  reject-DistinctNames (d ∷ ds) a h =
      ground (arith, knows-reject ds a d.device_name, reject-DistinctNames ds a h.1)

  pub knows-append :
      (ds : List (Device D)) (d : Device D) (name : Text)
      → knows (ds ++ d ∷ []) name ≡ (knows ds name || str_eq d.device_name name)
  knows-append [] d name = ground arith
  knows-append (x ∷ ds) d name = ground (arith, knows-append ds d name)

  pub append-DistinctNames :
      (ds : List (Device D)) (d : Device D)
      → DistinctNames ds
      → knows ds d.device_name ≡ false
      → DistinctNames (ds ++ d ∷ [])
  append-DistinctNames [] d h new = (refl, tt)
  append-DistinctNames (x ∷ ds) d h new = ground (
    arith,
    h.0,
    new,
    knows-append ds d x.device_name,
    append-DistinctNames ds d h.1,
    str_eq_iff d.device_name x.device_name,
    str_eq_iff x.device_name d.device_name,
  )

  -- What the removal and the addition of devices leave as it is.
  pub record Settled (n n' : Network D) : Type 0 where
    pub same_mode : n'.mode ≡ n.mode
    pub same_patterns : n'.patterns ≡ n.patterns
    pub same_names : n'.system_device_names ≡ n.system_device_names

  pub Settled-refl : (n : Network D) → Settled n n
  Settled-refl n = record { same_mode = refl; same_patterns = refl; same_names = refl }

  pub Settled-trans : {n m k : Network D} → Settled n m → Settled m k → Settled n k
  Settled-trans s t = record {
    same_mode = t.same_mode ∙ s.same_mode;
    same_patterns = t.same_patterns ∙ s.same_patterns;
    same_names = t.same_names ∙ s.same_names;
  }

  remove_device-devices :
      (n : Network D) (name : Text)
      → ((remove_device n name).0.devices ≡ without_device n.devices name)
        × Settled n (remove_device n name).0
  unfolding remove_device
  remove_device-devices n name =
      let n' =
        schedule_event (record n { devices = without_device n.devices name })
          (device_event device_removed name) in
      let whole = remove_device_macs_lem (length n.macs_seen) n' name (omega arith) in
      (
        ap (λ m. m.devices) whole,
        record {
          same_mode = ap (λ m. m.mode) whole;
          same_patterns = ap (λ m. m.patterns) whole;
          same_names = ap (λ m. m.system_device_names) whole;
        },
      )

  -- The devices that are left when some are removed.
  pub remove_devices_lem :
      (n : Network D) (names : List Text)
      → DistinctNames n.devices
      → DistinctNames (remove_devices n names).devices
        × ((name : Text)
            → knows (remove_devices n names).devices name
              ≡ (knows n.devices name && not (contains names name)))
        × Settled n (remove_devices n names)
  unfolding remove_devices
  remove_devices_lem n [] h = (h, (λ name. ground arith), Settled-refl n)
  remove_devices_lem n (m ∷ names) h =
      let n' = (remove_device n m).0 in
      let (left, settled) = remove_device-devices n m in
      let all = left ∙ without_device-reject n.devices m h in
      let apart : DistinctNames n'.devices = rw all (reject-DistinctNames n.devices m h) in
      let (apart', known, settled') = remove_devices_lem n' names apart in
      (
        apart',
        λ name.
            let here : knows n'.devices name ≡ (knows n.devices name && not (str_eq m name)) =
              ap (λ ds. knows ds name) all ∙ knows-reject n.devices m name in
            ground (arith, known name, here),
        Settled-trans settled settled',
      )

  pub device_allowed_same :
      (sys : System D) (n n' : Network D) (name : Text)
      → Settled n n'
      → device_allowed sys n' name ≡ device_allowed sys n name
  unfolding device_allowed
  device_allowed_same sys n n' name s = rw (s.same_mode, s.same_patterns)
