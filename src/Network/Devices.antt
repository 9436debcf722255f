-- ===== src/Network/Devices.antt =====
-- The devices of macdetectd/src/Network.cpp: `deviceAllowed` and the list behind it, `addDevice`,
-- `removeDevice`, `knownDevice`, `systemDeviceNames` and `deviceHardwareType`.
use macdetect.Base.{
  Bool, true, false, not, List, [], ◌∷◌, ◌++◌, map, Option, none, some, Text, text, str_eq, any,
  take, take_first, length, reject, if◌then◌else◌,
}
use macdetect.Doubles.{Doubles}
use macdetect.Event.{
  device_event, device_added, device_removed, device_evidence_changed, set_evidence,
}
use macdetect.Device.{HardwareType, loopback, wired, wireless, Device, make, read_mac}
use macdetect.Network.System.{Interface, System}
use macdetect.Network.Macs.{remove_device_macs}
use macdetect.Network.{WhiteBlackListMode, whitelist, blacklist, Network, schedule_event}

is_listed : WhiteBlackListMode → Bool → Bool
is_listed whitelist listed = listed
is_listed blacklist listed = not listed

interface_type : Interface → HardwareType
interface_type i = if i.is_loopback then loopback else if i.is_wireless then wireless else wired

find_interface : List Interface → Text → Option HardwareType
find_interface [] name = none
find_interface (i ∷ is) name =
    if str_eq i.interface_name name then some (interface_type i) else find_interface is name

abbrev pub contains : List Text → Text → Bool
contains names name = any (λ m. str_eq m name) names

module _ {D : Type 0} where
  unfoldable pub device_allowed : System D → Network D → Text → Bool
  unfolding is_listed
  device_allowed sys n name = is_listed n.mode (any (sys.regex_match name) n.patterns)

  unfoldable pub known_device : List (Device D) → Text → Option (Device D)
  known_device [] name = none
  known_device (d ∷ ds) name = if str_eq d.device_name name then some d else known_device ds name

  -- The answer has room for a hundred interfaces.
  unfoldable pub system_device_names : System D → Network D → List Text
  system_device_names sys n =
      if n.control then map (λ i. i.interface_name) (take 100 sys.interfaces) else []

  unfoldable pub device_hardware_type : System D → Network D → Text → Option HardwareType
  unfolding find_interface interface_type known_device
  device_hardware_type sys n name = elim (known_device n.devices name) [
    | some d ↦ d.hardware_type
    | none ↦ if n.control then find_interface (take 100 sys.interfaces) name else none
  ]

  unfoldable pub new_device : Doubles D → System D → Network D → Text → Device D
  unfolding device_hardware_type make read_mac
  new_device dbl sys n name =
      read_mac (make dbl name (device_hardware_type sys n name)) (sys.hardware_address name)

  unfoldable pub add_device : Doubles D → System D → Network D → Text → Network D × Bool
  add_device dbl sys n name =
      let d = new_device dbl sys n name in
      let mac_evidence =
        set_evidence (device_event device_evidence_changed name) (text "mac") d.mac [] in
      let added = record n {
        devices = n.devices ++ (d ∷ []);
        events = n.events ++ (device_event device_added name ∷ mac_evidence ∷ []);
      } in
      if device_allowed sys n name
      then elim (known_device n.devices name) [
        | none ↦ if contains n.system_device_names name then (added, true) else (n, false)
        | some _ ↦ (n, false)
      ]
      else (n, false)

  unfoldable pub without_device : List (Device D) → Text → List (Device D)
  without_device ds name = elim (take_first (λ (d : Device D). str_eq d.device_name name) ds) [
    | none ↦ ds
    | some (_, rest) ↦ rest
  ]

  unfoldable pub remove_device : Network D → Text → Network D × Bool
  unfolding without_device
  remove_device n name =
      let n' =
        schedule_event (record n { devices = without_device n.devices name })
          (device_event device_removed name) in
      (remove_device_macs (length n.macs_seen) n' name, false)

  unfoldable pub add_devices : Doubles D → System D → Network D → List Text → Network D
  add_devices dbl sys n [] = n
  add_devices dbl sys n (name ∷ names) = add_devices dbl sys (add_device dbl sys n name).0 names

  unfoldable pub remove_devices : Network D → List Text → Network D
  remove_devices n [] = n
  remove_devices n (name ∷ names) = remove_devices (remove_device n name).0 names

  unfoldable pub add_device_white_blacklist_entry : System D → Network D → Text → Network D
  add_device_white_blacklist_entry sys n pattern' =
      let n' = record n { patterns = n.patterns ++ (pattern' ∷ []) } in
      remove_devices n'
        (map (λ d. d.device_name) (reject (λ d. device_allowed sys n' d.device_name) n'.devices))

  unfoldable pub clear_device_white_blacklist : Network D → Network D
  clear_device_white_blacklist n = record n { patterns = [] }
