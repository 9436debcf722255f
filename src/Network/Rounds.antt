-- ===== src/Network/Rounds.antt =====
-- The devices that the monitor of macdetectd/src/Network.cpp knows, from one round of `cycle` to the
-- next.
use macdetect.Base.{
  true, false, ◌&&◌, ◌||◌, List, [], ◌∷◌, map, Text, str_eq, take, length, if-cases, if◌then◌else◌,
  ◌≡◌, refl, ap, ◌∙◌, Bool-cases, inl, inr, arith,
}
use macdetect.Doubles.{Doubles}
use macdetect.Device.{Device, send_ping_broadcast}
use macdetect.Network.System.{System}
use macdetect.Network.Macs.{expire}
use macdetect.Network.Devices.{contains, device_allowed, system_device_names}
use macdetect.Network.Activity.{detect_network_activity}
use macdetect.Network.Cycle.{
  update_status, maintain_devices, manage_devices, refresh_macs, send_broadcasts, cycle,
}
use macdetect.Network.Steady.{detect-Keeps}
use macdetect.Network.Loops.{expire_lem}
use macdetect.Network.Known.{knows, DistinctNames}
use macdetect.Network.Managed.{manage_devices_lem}
use macdetect.Network.{Network}

module _ {D : Type 0} where
  knows-map :
      (f : Device D → Device D)
      → ((d : Device D) → (f d).device_name ≡ d.device_name)
      → (ds : List (Device D)) (name : Text) → knows (map f ds) name ≡ knows ds name
  knows-map f same [] name = refl
  knows-map f same (d ∷ ds) name =
      rw (same d) (ap (λ b. str_eq d.device_name name || b) (knows-map f same ds name))

  map-DistinctNames :
      (f : Device D → Device D)
      → ((d : Device D) → (f d).device_name ≡ d.device_name)
      → (ds : List (Device D)) → DistinctNames ds
      → DistinctNames (map f ds)
  map-DistinctNames f same [] h = tt
  map-DistinctNames f same (d ∷ ds) h =
      (rw (same d) (knows-map f same ds d.device_name ∙ h.0), map-DistinctNames f same ds h.1)

  -- The same names of devices, in one order.
  record Renews (ds ds' : List (Device D)) : Type 0 where
    same : (name : Text) → knows ds' name ≡ knows ds name
    apart : DistinctNames ds → DistinctNames ds'

  map-Renews :
      (f : Device D → Device D)
      → ((d : Device D) → (f d).device_name ≡ d.device_name)
      → (ds : List (Device D)) → Renews ds (map f ds)
  map-Renews f same ds = record { same = knows-map f same ds; apart = map-DistinctNames f same ds }

  maintain_devices-Renews :
      (sys : System D) (n : Network D) → Renews n.devices (maintain_devices sys n).devices
  unfolding maintain_devices update_status
  maintain_devices-Renews sys n =
      if-cases (λ (m : Network D). Renews n.devices m.devices) n.control _ _
        (map-Renews _ (λ d. refl) n.devices) (record { same = λ name. refl; apart = λ h. h })

  -- The last steps of a round.
  finish-Renews :
      (dbl : Doubles D) (sys : System D) (n : Network D)
      → Renews n.devices
          (send_broadcasts dbl sys.cycle_time (
            refresh_macs dbl sys.cycle_time
              (expire dbl sys.cycle_time (length n.macs_seen) n))).devices
  unfolding send_broadcasts refresh_macs send_ping_broadcast
  finish-Renews dbl sys n =
      rw (expire_lem dbl sys.cycle_time (length n.macs_seen) n (omega arith)) (
        map-Renews _
          (λ d. if-cases (λ (e : Device D). e.device_name ≡ d.device_name) _ _ _ refl refl)
          n.devices)

  -- The devices before a round of `cycle` that manages them, and the names that the system has.
  before_managing : Doubles D → System D → Network D → Network D
  before_managing dbl sys n =
      let detected = detect_network_activity dbl sys (record n { events = [] }) in
      record detected { system_device_names = system_device_names sys detected }

  cycle-Renews :
      (dbl : Doubles D) (sys : System D) (n : Network D)
      → Renews
          (manage_devices dbl sys (before_managing dbl sys n)).devices
          (cycle dbl sys n).0.devices
  unfolding cycle before_managing
  cycle-Renews dbl sys n =
      let managed = manage_devices dbl sys (before_managing dbl sys n) in
      let first = maintain_devices-Renews sys managed in
      let last = finish-Renews dbl sys (maintain_devices sys managed) in
      record {
        same = λ name. last.same name ∙ first.same name;
        apart = λ h. last.apart (first.apart h);
      }

  manage_devices-off :
      (dbl : Doubles D) (sys : System D) (n : Network D)
      → n.auto_manage_devices ≡ false
      → manage_devices dbl sys n ≡ n
  unfolding manage_devices
  manage_devices-off dbl sys n off = rw off

  -- A round keeps the names of the known devices apart, whatever the system answers, and whether the
  -- monitor manages its devices or not.
  pub cycle-DistinctNames :
      (dbl : Doubles D) (sys : System D) (n : Network D)
      → DistinctNames n.devices
      → DistinctNames (cycle dbl sys n).0.devices
  unfolding before_managing
  cycle-DistinctNames dbl sys n h =
      let here = before_managing dbl sys n in
      let kept = detect-Keeps dbl sys (record n { events = [] }) in
      let before : DistinctNames here.devices = rw (ap (λ l. l.0) kept.kept) h in
      (cycle-Renews dbl sys n).apart (elim (Bool-cases here.auto_manage_devices) [
        | inl on ↦ (manage_devices_lem dbl sys here on before).0
        | inr off ↦ rw (manage_devices-off dbl sys here off) before
      ])

  -- Where the monitor manages its devices, a device is known after a round of `cycle` if and only if
  -- the system has it and it was known before the round or is allowed by the list. No two known
  -- devices have one name before the round.
  pub cycle_devices_lem :
      (dbl : Doubles D) (sys : System D) (n : Network D) (name : Text)
      → n.auto_manage_devices ≡ true
      → DistinctNames n.devices
      → knows (cycle dbl sys n).0.devices name ≡ (
          contains (system_device_names sys n) name
          && (knows n.devices name || device_allowed sys n name))
  unfolding before_managing system_device_names device_allowed
  cycle_devices_lem dbl sys n name on h =
      let here = before_managing dbl sys n in
      let kept = (detect-Keeps dbl sys (record n { events = [] })).kept in
      let before : DistinctNames here.devices = rw (ap (λ l. l.0) kept) h in
      let manages : here.auto_manage_devices ≡ true = ap (λ l. l.2) kept ∙ on in
      (cycle-Renews dbl sys n).same name
      ∙ (manage_devices_lem dbl sys here manages before).1 name
      ∙ ap
          (λ l.
            contains (if l.1 then map (λ i. i.interface_name) (take 100 sys.interfaces) else [])
              name
            && (knows l.0 name
                || device_allowed sys (record n { mode = l.3; patterns = l.4 }) name))
          kept
