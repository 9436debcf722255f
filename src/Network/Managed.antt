-- ===== src/Network/Managed.antt =====
-- The devices that `Network::cycle` of macdetectd/src/Network.cpp knows, when it manages them itself.
use macdetect.Base.{
  Bool, true, false, not, ◌&&◌, ◌||◌, List, [], ◌∷◌, map, Text, str_eq, str_eq_iff, if◌then◌else◌,
  ◌≡◌, refl, ap, ◌∙◌, Bool-cases, Option-cases, inl, inr, arith,
}
use macdetect.Doubles.{Doubles}
use macdetect.Device.{make, read_mac}
use macdetect.Network.System.{System}
use macdetect.Network.Devices.{
  contains, device_allowed, known_device, new_device, add_device, add_devices, remove_devices,
}
use macdetect.Network.Cycle.{is_unknown, added_names, removed_names, manage_devices}
use macdetect.Network.Known.{
  contains-select, contains-reject, knows, DistinctNames, is_unknown-known_device, contains-names,
  knows-append, append-DistinctNames, Settled, Settled-refl, remove_devices_lem,
  device_allowed_same,
}
use macdetect.Network.{Network}

module _ {D : Type 0} (dbl : Doubles D) (sys : System D) where
  -- The names that `addDevice` accepts.
  abbrev accepts : Network D → Text → Bool
  accepts n name = device_allowed sys n name && contains n.system_device_names name

  pub new_device-name :
      (n : Network D) (name : Text) → (new_device dbl sys n name).device_name ≡ name
  unfolding new_device make read_mac
  new_device-name n name = refl

  accepts_same :
      (n : Network D) (name b : Text)
      → accepts n name ≡ true
      → str_eq name b ≡ (str_eq name b && accepts n b)
  accepts_same n name b h = elim (Bool-cases (str_eq name b)) [
    | inr other ↦ ground (arith, other)
    | inl same ↦ let e = ap (accepts n) ((str_eq_iff name b).0 same) in ground (arith, h, e, same)
  ]

  -- What `addDevice` does to the known devices.
  record Added (n n' : Network D) (name : Text) : Type 0 where
    apart : DistinctNames n'.devices
    known : (b : Text) → knows n'.devices b ≡ (knows n.devices b || (str_eq name b && accepts n b))
    settled : Settled n n'

  not-Added :
      (n : Network D) (name : Text)
      → DistinctNames n.devices
      → (knows n.devices name || not (accepts n name)) ≡ true
      → Added n n name
  not-Added n name h vain = record {
    apart = h;
    known = λ b. elim (Bool-cases (str_eq name b)) [
      | inr other ↦ ground (arith, other)
      | inl same ↦
          let e = (str_eq_iff name b).0 same in
          let k = ap (knows n.devices) e in let a = ap (accepts n) e in ground (arith, vain, k, a)
    ];
    settled = Settled-refl n;
  }

  add_device-Added :
      (n : Network D) (name : Text)
      → DistinctNames n.devices
      → Added n (add_device dbl sys n name).0 name
  unfolding add_device is_unknown
  add_device-Added n name h =
      let unknown = is_unknown-known_device n.devices name in
      elim (Bool-cases (device_allowed sys n name)) [
        | inr refused ↦ rw refused (not-Added n name h (ground (arith, refused)))
        | inl allowed ↦ elim (Option-cases (known_device n.devices name)) [
          | inr (d, old) ↦
              let there : knows n.devices name ≡ true =
                let e : is_unknown (known_device n.devices name) ≡ false = ap is_unknown old in
                ground (arith, unknown, e) in
              rw (allowed, old) (not-Added n name h (ground (arith, there)))
          | inl new ↦
              let free : knows n.devices name ≡ false =
                let e : is_unknown (known_device n.devices name) ≡ true = ap is_unknown new in
                ground (arith, unknown, e) in
              elim (Bool-cases (contains n.system_device_names name)) [
                | inr missing ↦
                    rw (allowed, new, missing) (not-Added n name h (ground (arith, missing)))
                | inl here ↦
                    rw (allowed, new, here)
                      (record {
                        apart =
                            append-DistinctNames n.devices (new_device dbl sys n name) h
                              (ap (knows n.devices) (new_device-name n name) ∙ free);
                        known = λ b.
                            knows-append n.devices (new_device dbl sys n name) b
                            ∙ ap (λ a. knows n.devices b || str_eq a b) (new_device-name n name)
                            ∙ ap (λ t. knows n.devices b || t)
                                (accepts_same n name b (ground (arith, allowed, here)));
                        settled = record {
                          same_mode = refl;
                          same_patterns = refl;
                          same_names = refl;
                        };
                      })
              ]
        ]
      ]

  -- The devices that are known when some are added.
  add_devices_lem :
      (n : Network D) (names : List Text)
      → DistinctNames n.devices
      → DistinctNames (add_devices dbl sys n names).devices
        × ((name : Text)
            → knows (add_devices dbl sys n names).devices name
              ≡ (knows n.devices name || (contains names name && accepts n name)))
  unfolding add_devices
  add_devices_lem n [] h = (h, λ name. ground arith)
  add_devices_lem n (m ∷ names) h =
      let n' = (add_device dbl sys n m).0 in
      let a = add_device-Added n m h in
      let (apart, known) = add_devices_lem n' names a.apart in
      (
        apart,
        λ name.
            let allowed = device_allowed_same sys n n' name a.settled in
            let named = ap (λ l. contains l name) a.settled.same_names in
            ground (arith, known name, a.known name, allowed, named),
      )

  manage_devices-on :
      (n : Network D)
      → n.auto_manage_devices ≡ true
      → manage_devices dbl sys n
        ≡ add_devices dbl sys
            (remove_devices n (removed_names n n.system_device_names))
            (added_names n n.system_device_names)
  unfolding manage_devices
  manage_devices-on n on =
      ap
        (λ b.
          if b
          then add_devices dbl sys (remove_devices n (removed_names n n.system_device_names))
              (added_names n n.system_device_names)
          else n)
        on

  -- When devices are managed, a device is known afterwards if and only if the system has it and it is
  -- either known already or allowed by the list; no two known devices have one name. No two have
  -- before.
  pub manage_devices_lem :
      (n : Network D)
      → n.auto_manage_devices ≡ true
      → DistinctNames n.devices
      → DistinctNames (manage_devices dbl sys n).devices
        × ((name : Text)
            → knows (manage_devices dbl sys n).devices name ≡ (
                contains n.system_device_names name
                && (knows n.devices name || device_allowed sys n name)))
  unfolding added_names removed_names
  manage_devices_lem n on h =
      let names = n.system_device_names in
      let gone = removed_names n names in
      let new = added_names n names in
      let left = remove_devices n gone in
      let (apart, stays, settled) = remove_devices_lem n gone h in
      let (apart', known) = add_devices_lem left new apart in
      rw (manage_devices-on n on) (
        apart',
        λ name.
            let allowed = device_allowed_same sys n left name settled in
            let named = ap (λ l. contains l name) settled.same_names in
            let out =
              contains-reject (contains names) (map (λ d. d.device_name) n.devices) name
              ∙ ap (λ b. b && not (contains names name)) (contains-names n.devices name) in
            let in' =
              contains-select (λ m. is_unknown (known_device n.devices m)) names name
              ∙ ap (λ b. contains names name && b) (is_unknown-known_device n.devices name) in
            ground (arith, known name, stays name, allowed, named, out, in'),
      )
