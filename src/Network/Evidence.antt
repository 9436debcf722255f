-- ===== src/Network/Evidence.antt =====
-- What is known of an address in macdetectd/src/Network.cpp: `macEvidence`, `updateMACEvidence` and
-- `checkHostnames`. Reading a missing key of the maps makes an entry there, as in the source.
use macdetect.Base.{List, [], ◌∷◌, Option, none, some, Text, text, str_eq, if◌then◌else◌}
use macdetect.Base.Dict.{lookup, insert}
use macdetect.Event.{mac_event, mac_evidence_changed, set_evidence}
use macdetect.Network.System.{System}
use macdetect.Network.Macs.{mac_allowed, device_for_mac}
use macdetect.Network.{Network, schedule_event}

abbrev pub or_else {ℓ} : {A : Type ℓ} → Option A → A → A
or_else none d = d
or_else (some a) d = a

-- `m_mapMACEvidence[strMAC]`
abbrev pub evidence_for : List (Text × List (Text × Text)) → Text → List (Text × Text)
evidence_for m mac = or_else (lookup mac m) []

abbrev pub value_for : List (Text × Text) → Text → Text
value_for m key = or_else (lookup key m) []

module _ {D : Type 0} where
  unfoldable pub mac_evidence_of : Network D → Text → Network D × List (Text × Text)
  mac_evidence_of n mac =
      let found = evidence_for n.mac_evidence mac in
      (record n { mac_evidence = insert mac found n.mac_evidence }, found)

  unfoldable pub update_mac_evidence : Network D → Text → Text → Text → Text → Network D
  update_mac_evidence n dev mac key content =
      let former = value_for (evidence_for n.mac_evidence mac) key in
      let stored = record n {
        mac_evidence =
            insert mac (insert key content (evidence_for n.mac_evidence mac)) n.mac_evidence;
      } in
      if mac_allowed n mac
      then if str_eq former content
        then stored
        else schedule_event stored
            (set_evidence (mac_event mac_evidence_changed dev mac) key content former)
      else n

  -- One round of the loop of `checkHostnames`, on a copy of the entry.
  unfoldable pub check_hostname : System D → Network D → Text → List (Text × Text) → Network D
  check_hostname sys n mac entry = elim (lookup (text "ip") entry) [
    | none ↦ n
    | some ip ↦ elim (lookup (text "hostname") entry) [
      | some _ ↦ n
      | none ↦ elim (sys.host_name ip) [
        | none ↦ n
        | some host ↦
            update_mac_evidence n (device_for_mac n.macs_seen mac) mac (text "hostname") host
      ]
    ]
  ]

  unfoldable pub check_hostnames_of :
      System D → Network D → List (Text × List (Text × Text)) → Network D
  unfolding check_hostname
  check_hostnames_of sys n [] = n
  check_hostnames_of sys n ((mac, entry) ∷ es) =
      check_hostnames_of sys (check_hostname sys n mac entry) es

  unfoldable pub check_hostnames : System D → Network D → Network D
  unfolding check_hostnames_of
  check_hostnames sys n = check_hostnames_of sys n n.mac_evidence
