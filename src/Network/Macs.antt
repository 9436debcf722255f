-- ===== src/Network/Macs.antt =====
-- The addresses that macdetectd/src/Network.cpp has seen: `macAllowed`, `ipAllowed`, `addMAC`,
-- `removeMAC`, `macLastSeen`, `deviceForMAC`, `knownMACs` and the loop of `cycle` that drops old
-- addresses. An operation that reads the clock takes its answer as the argument `now`.
use macdetect.Base.{
  ℕ, zero, suc, Bool, true, false, not, ◌&&◌, List, [], ◌∷◌, ◌++◌, none, some, Text, text, str_eq,
  any, take_first, take, if◌then◌else◌,
}
use macdetect.Doubles.{Doubles}
use macdetect.Event.{Event, mac_address_discovered, mac_address_disappeared, mac_event}
use macdetect.Network.{MacEntity, Network, schedule_event}

abbrev pub no_mac : Text
no_mac = text "00:00:00:00:00:00"

abbrev pub broadcast_mac : Text
broadcast_mac = text "ff:ff:ff:ff:ff:ff"

abbrev pub discovered : Text → Text → Event
discovered dev mac = mac_event mac_address_discovered dev mac

abbrev pub disappeared : Text → Text → Event
disappeared dev mac = mac_event mac_address_disappeared dev mac

unfoldable pub ip_allowed : Text → Bool
ip_allowed ip = not (str_eq ip (text "255.255.255.255")) && not (str_eq (take 3 ip) (text "224"))

module _ {D : Type 0} where
  -- `addDevice` has filled in the address of every known device.
  unfoldable pub mac_allowed : Network D → Text → Bool
  mac_allowed n mac =
      not (str_eq mac no_mac)
      && not (str_eq mac broadcast_mac)
      && not (n.ignore_device_macs && any (λ d. str_eq d.mac mac) n.devices)

  abbrev pub matches : Text → Text → MacEntity D → Bool
  matches dev mac e = str_eq e.device_name dev && str_eq e.mac mac

  unfoldable pub mac_last_seen : Doubles D → List (MacEntity D) → Text → Text → D
  mac_last_seen dbl [] mac dev = dbl.minus_one
  mac_last_seen dbl (e ∷ es) mac dev =
      if matches dev mac e then e.last_seen else mac_last_seen dbl es mac dev

  -- The loop of `addMAC` over the entities that are there.
  unfoldable pub touch : D → Text → Text → List (MacEntity D) → List (MacEntity D)
  touch now mac dev [] = []
  touch now mac dev (e ∷ es) =
      (if matches dev mac e then record e { last_seen = now } else e) ∷ touch now mac dev es

  abbrev pub new_entity : Doubles D → D → Text → Text → MacEntity D
  new_entity dbl now mac dev = record {
    mac = mac;
    device_name = dev;
    host_name = [];
    ip = [];
    first_seen = now;
    last_seen = now;
    last_update = dbl.zero;
  }

  -- `addMAC(strMACAddress, strDeviceName)`
  unfoldable pub add_mac : Doubles D → D → Network D → Text → Text → Network D × Bool
  add_mac dbl now n mac dev =
      let n' =
        if dbl.eq (mac_last_seen dbl n.macs_seen mac dev) dbl.minus_one
        then schedule_event n (discovered dev mac)
        else n in
      if mac_allowed n mac
      then if any (matches dev mac) n.macs_seen
        then (record n' { macs_seen = touch now mac dev n.macs_seen }, false)
        else (record n' { macs_seen = n.macs_seen ++ (new_entity dbl now mac dev ∷ []) }, true)
      else (n, false)

  -- `removeMAC(strDeviceName, strMAC)`
  unfoldable pub remove_mac : Network D → Text → Text → Network D
  remove_mac n dev mac = elim (take_first (matches dev mac) n.macs_seen) [
    | none ↦ n
    | some (e, rest) ↦ schedule_event (record n { macs_seen = rest }) (disappeared dev mac)
  ]

  unfoldable pub device_for_mac : List (MacEntity D) → Text → Text
  device_for_mac [] mac = text ""
  device_for_mac (e ∷ es) mac = if str_eq e.mac mac then e.device_name else device_for_mac es mac

  unfoldable pub is_old : Doubles D → D → Network D → MacEntity D → Bool
  is_old dbl now n e = dbl.gt (dbl.minus now e.last_seen) n.max_mac_age

  -- The loop of `cycle` that drops the addresses that were not seen for too long. A round drops one,
  -- so the number of the addresses is fuel enough.
  unfoldable pub expire : Doubles D → D → ℕ → Network D → Network D
  expire dbl now zero n = n
  expire dbl now (suc f) n = elim (take_first (is_old dbl now n) n.macs_seen) [
    | none ↦ n
    | some (e, rest) ↦
        expire dbl now f
          (schedule_event (record n { macs_seen = rest }) (disappeared e.device_name e.mac))
  ]

  -- The loop of `removeDevice` over the addresses of the device, on fuel as `expire`.
  unfoldable pub remove_device_macs : ℕ → Network D → Text → Network D
  remove_device_macs zero n name = n
  remove_device_macs (suc f) n name =
      elim (take_first (λ e. str_eq e.device_name name) n.macs_seen) [
        | none ↦ n
        | some (e, rest) ↦ remove_device_macs f (remove_mac n name e.mac) name
      ]
