-- ===== src/Network/Steady.antt =====
-- The frames that `detectNetworkActivity` of macdetectd/src/Network.cpp reads change neither the known
-- devices nor the settings.
use macdetect.Base.{
  Bool, true, false, List, [], ◌∷◌, ◌++◌, Text, text, any, if-cases, if◌then◌else◌, All, All-append,
  append_assoc, append-nil, sym, ap, ◌≡◌, ◌==◌, refl, ◌∙◌, Bool-cases, Option-cases, inl, inr,
}
use macdetect.Base.Dict.{lookup}
use macdetect.Doubles.{Doubles}
use macdetect.Device.{Device}
use macdetect.Network.System.{System}
use macdetect.Network.Macs.{
  mac_allowed, mac_last_seen, matches, discovered, add_mac, touch, new_entity, device_for_mac,
  ip_allowed,
}
use macdetect.Network.Evidence.{
  update_mac_evidence, check_hostname, check_hostnames_of, check_hostnames,
}
use macdetect.Network.Activity.{
  has_header, buffer_of, source_mac, take_frame, take_frames, detect_network_activity,
}
use macdetect.Event.{Event, mac_event, device_event, set_evidence}
use macdetect.Network.Names.{IsAside, follow_names}
use macdetect.Network.{schedule_event, MacEntity, Network, WhiteBlackListMode}

module _ {D : Type 0} where
  -- What a frame does not change.
  abbrev pub lists : Network D → List (Device D) × Bool × Bool × WhiteBlackListMode × List Text
  lists n = (n.devices, n.control, n.auto_manage_devices, n.mode, n.patterns)

  -- The known devices and the settings are as they were, and the events tell nothing of the devices.
  pub record Keeps (n n' : Network D) : Type 0 where
    pub kept : lists n' ≡ lists n
    pub scheduled : List Event
    pub logged : n'.events ≡ n.events ++ scheduled
    pub aside : All IsAside scheduled

  silent : (n n' : Network D) → lists n' ≡ lists n → n'.events ≡ n.events → Keeps n n'
  silent n n' same quiet = record {
    kept = same;
    scheduled = [];
    logged = quiet ∙ sym (append-nil n.events);
    aside = tt;
  }

  Keeps-refl : (n : Network D) → Keeps n n
  Keeps-refl n = silent n n refl refl

  Keeps-trans : {n m k : Network D} → Keeps n m → Keeps m k → Keeps n k
  Keeps-trans {n} {m} {k} s t = record {
    kept = t.kept ∙ s.kept;
    scheduled = s.scheduled ++ t.scheduled;
    logged =
        t.logged
        ∙ ap (λ l. l ++ t.scheduled) s.logged
        ∙ append_assoc n.events s.scheduled t.scheduled;
    aside = All-append IsAside s.scheduled t.scheduled s.aside t.aside;
  }

  one :
      (n n' : Network D) (e : Event)
      → lists n' ≡ lists n
      → n'.events ≡ n.events ++ (e ∷ [])
      → IsAside e
      → Keeps n n'
  one n n' e same logged aside = record {
    kept = same;
    scheduled = e ∷ [];
    logged = logged;
    aside = (aside, tt);
  }

  seen-Keeps :
      (n : Network D) (ms : List (MacEntity D)) (b : Bool) (dev mac : Text)
      → Keeps n (record (if b then schedule_event n (discovered dev mac) else n) { macs_seen = ms })
  unfolding follow_names mac_event device_event
  seen-Keeps n ms true dev mac = one n _ (discovered dev mac) refl refl (λ ns. refl)
  seen-Keeps n ms false dev mac = silent n _ refl refl

  add_mac-Keeps :
      (dbl : Doubles D) (now : D) (n : Network D) (mac dev : Text)
      → Keeps n (add_mac dbl now n mac dev).0
  unfolding add_mac
  add_mac-Keeps dbl now n mac dev =
      let fresh = dbl.eq (mac_last_seen dbl n.macs_seen mac dev) dbl.minus_one in
      elim (Bool-cases (mac_allowed n mac)) [
        | inr refused ↦ rw refused (Keeps-refl n)
        | inl allowed ↦ elim (Bool-cases (any (matches dev mac) n.macs_seen)) [
          | inl old ↦ rw (allowed, old) (seen-Keeps n (touch now mac dev n.macs_seen) fresh dev mac)
          | inr new ↦
              rw (allowed, new)
                (seen-Keeps n (n.macs_seen ++ (new_entity dbl now mac dev ∷ [])) fresh dev mac)
        ]
      ]

  update_mac_evidence-Keeps :
      (n : Network D) (dev mac key content : Text)
      → Keeps n (update_mac_evidence n dev mac key content)
  unfolding update_mac_evidence follow_names set_evidence mac_event device_event
  update_mac_evidence-Keeps n dev mac key content =
      if-cases (Keeps n) _ _ _
        (if-cases (Keeps n) _ _ _ (silent n _ refl refl) (one n _ _ refl refl (λ ns. refl)))
        (Keeps-refl n)

  check_hostname-Keeps :
      (sys : System D) (n : Network D) (mac : Text) (entry : List (Text × Text))
      → Keeps n (check_hostname sys n mac entry)
  unfolding check_hostname
  check_hostname-Keeps sys n mac entry = elim (Option-cases (lookup (text "ip") entry)) [
    | inl e ↦ rw (e, check_hostname) (Keeps-refl n)
    | inr (ip, e) ↦ elim (Option-cases (lookup (text "hostname") entry)) [
      | inr (h, k) ↦ rw (e, check_hostname, k) (Keeps-refl n)
      | inl k ↦ elim (Option-cases (sys.host_name ip)) [
        | inl m ↦ rw (e, check_hostname, k, m) (Keeps-refl n)
        | inr (host, m) ↦
            rw (e, check_hostname, k, m)
              (update_mac_evidence-Keeps n (device_for_mac n.macs_seen mac) mac (text "hostname")
                host)
      ]
    ]
  ]

  check_hostnames_of-Keeps :
      (sys : System D) (n : Network D) (es : List (Text × List (Text × Text)))
      → Keeps n (check_hostnames_of sys n es)
  unfolding check_hostnames_of
  check_hostnames_of-Keeps sys n [] = Keeps-refl n
  check_hostnames_of-Keeps sys n ((mac, entry) ∷ es) =
      Keeps-trans (check_hostname-Keeps sys n mac entry)
        (check_hostnames_of-Keeps sys (check_hostname sys n mac entry) es)

  take_frame-Keeps :
      (dbl : Doubles D) (sys : System D) (n : Network D) (d : Device D)
      → Keeps n (take_frame dbl sys n d)
  unfolding take_frame
  take_frame-Keeps dbl sys n d =
      let mac = source_mac (buffer_of (sys.frame d.device_name)) in
      let seen = add_mac-Keeps dbl (sys.seen_time d.device_name) n mac d.device_name in
      if-cases (Keeps n) (has_header (sys.frame d.device_name)) _ _
        (if-cases (Keeps n) (_ == 0x0800) _ _
          (if-cases (Keeps n) (ip_allowed _) _ _
            (Keeps-trans seen (update_mac_evidence-Keeps _ _ _ _ _)) seen)
          seen)
        (Keeps-refl n)

  take_frames-Keeps :
      (dbl : Doubles D) (sys : System D) (n : Network D) (ds : List (Device D))
      → Keeps n (take_frames dbl sys n ds)
  unfolding take_frames
  take_frames-Keeps dbl sys n [] = Keeps-refl n
  take_frames-Keeps dbl sys n (d ∷ ds) =
      Keeps-trans (take_frame-Keeps dbl sys n d)
        (take_frames-Keeps dbl sys (take_frame dbl sys n d) ds)

  pub detect-Keeps :
      (dbl : Doubles D) (sys : System D) (n : Network D)
      → Keeps n (detect_network_activity dbl sys n)
  unfolding detect_network_activity check_hostnames
  detect-Keeps dbl sys n =
      let taken = take_frames-Keeps dbl sys n n.devices in
      let n' = take_frames dbl sys n n.devices in
      let looked = check_hostnames_of-Keeps sys n' n'.mac_evidence in
      let both = Keeps-trans taken looked in
      if-cases (Keeps n) (dbl.gt _ _) _ _
        (record {
          kept = both.kept;
          scheduled = both.scheduled;
          logged = both.logged;
          aside = both.aside;
        })
        taken
