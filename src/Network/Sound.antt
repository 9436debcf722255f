-- ===== src/Network/Sound.antt =====
-- Each operation of macdetectd/src/Network.cpp on the seen addresses keeps the invariant, and
-- schedules just the events by which a client can follow the list.
use macdetect.Base.{
  ℕ, zero, suc, true, false, List, [], ◌∷◌, ◌++◌, Text, str_eq, str_eq_iff, ◌≡◌, refl, sym, ap, ◌∙◌,
  arith, any, append-nil, Bool-cases, inl, inr, All, All-append, All-without, take_first-cases,
}
use macdetect.Doubles.{Doubles}
use macdetect.Event.{mac_event}
use macdetect.Network.{MacEntity, Network, schedule_event}
use macdetect.Network.Macs.{
  discovered, disappeared, matches, mac_allowed, touch, new_entity, add_mac, remove_mac, is_old,
  expire, remove_device_macs,
}
use macdetect.Network.Replay.{
  pairs, has, remove_pair, follow, replay, pairs-append, has-pairs, remove_pair-middle,
  Distinct-middle, Distinct-concat,
}
use macdetect.Network.Tracking.{
  Real, Timed, Inv, Tracks, Tracks-refl, Tracks-trans, pairs-touch, touch-Real, touch-Timed,
  mac_last_seen_known,
}

module _ {D : Type 0} (dbl : Doubles D) where
  dropped : Network D → List (MacEntity D) → MacEntity D → Network D
  dropped n rest e =
      schedule_event (record n { macs_seen = rest }) (disappeared e.device_name e.mac)

  dropped-Inv :
      (n : Network D) (xs : List (MacEntity D)) (e : MacEntity D) (ys : List (MacEntity D))
      → n.macs_seen ≡ xs ++ e ∷ ys
      → Inv dbl n
      → Inv dbl (dropped n (xs ++ ys) e)
  unfolding dropped
  dropped-Inv n xs e ys s v =
      let split =
        Distinct-middle e.device_name e.mac (pairs xs) (pairs ys)
          (rw (← pairs-append xs (e ∷ ys), ← s) v.distinct) in
      record {
        distinct = rw (pairs-append xs ys) split.1;
        real = All-without Real xs e ys (rw (← s) v.real);
        timed = All-without (Timed dbl) xs e ys (rw (← s) v.timed);
      }

  dropped-Tracks :
      (n : Network D) (xs : List (MacEntity D)) (e : MacEntity D) (ys : List (MacEntity D))
      → n.macs_seen ≡ xs ++ e ∷ ys
      → Inv dbl n
      → Tracks n (dropped n (xs ++ ys) e)
  unfolding dropped replay follow mac_event
  dropped-Tracks n xs e ys s v =
      let split =
        Distinct-middle e.device_name e.mac (pairs xs) (pairs ys)
          (rw (← pairs-append xs (e ∷ ys), ← s) v.distinct) in
      record {
        scheduled = disappeared e.device_name e.mac ∷ [];
        logged = refl;
        followed =
            ap (remove_pair e.device_name e.mac) (ap pairs s ∙ pairs-append xs (e ∷ ys))
            ∙ remove_pair-middle e.device_name e.mac (pairs xs) (pairs ys) split.0
            ∙ sym (pairs-append xs ys);
      }

  -- An operation that keeps the invariant and schedules the events for what it does.
  abbrev pub Sound : Network D → Network D → Type 0
  Sound n n' = Inv dbl n → Inv dbl n' × Tracks n n'

  pub remove_mac-Sound : (n : Network D) (dev mac : Text) → Sound n (remove_mac n dev mac)
  unfolding remove_mac dropped
  remove_mac-Sound n dev mac v = elim (take_first-cases (matches dev mac) n.macs_seen) [
    | inl (e, h) ↦ rw (e, remove_mac) (v, Tracks-refl n)
    | inr s ↦
        let same_dev : s.found.device_name ≡ dev =
          ground (arith, s.passes, str_eq_iff s.found.device_name dev) in
        let same_mac : s.found.mac ≡ mac = ground (arith, s.passes, str_eq_iff s.found.mac mac) in
        rw (s.taken, remove_mac, ← same_dev, ← same_mac)
          (
            dropped-Inv n s.before s.found s.behind s.splits v,
            dropped-Tracks n s.before s.found s.behind s.splits v,
          )
  ]

  pub expire-Sound : (now : D) (f : ℕ) (n : Network D) → Sound n (expire dbl now f n)
  unfolding expire dropped
  expire-Sound now zero n v = (v, Tracks-refl n)
  expire-Sound now (suc f) n v = elim (take_first-cases (is_old dbl now n) n.macs_seen) [
    | inl (e, h) ↦ rw (e, expire) (v, Tracks-refl n)
    | inr s ↦
        let (v', t) =
          expire-Sound now f (dropped n (s.before ++ s.behind) s.found)
            (dropped-Inv n s.before s.found s.behind s.splits v) in
        rw (s.taken, expire)
          (v', Tracks-trans (dropped-Tracks n s.before s.found s.behind s.splits v) t)
  ]

  pub remove_device_macs-Sound :
      (f : ℕ) (n : Network D) (name : Text) → Sound n (remove_device_macs f n name)
  unfolding remove_device_macs
  remove_device_macs-Sound zero n name v = (v, Tracks-refl n)
  remove_device_macs-Sound (suc f) n name v =
      elim (take_first-cases (λ (e : MacEntity D). str_eq e.device_name name) n.macs_seen) [
        | inl (e, h) ↦ rw (e, remove_device_macs) (v, Tracks-refl n)
        | inr s ↦
            let (v₁, t₁) = remove_mac-Sound n name s.found.mac v in
            let (v₂, t₂) = remove_device_macs-Sound f (remove_mac n name s.found.mac) name v₁ in
            rw (s.taken, remove_device_macs) (v₂, Tracks-trans t₁ t₂)
      ]

  -- The three branches of `addMAC`.
  pub add_mac_refused :
      (now : D) (n : Network D) (mac dev : Text)
      → mac_allowed n mac ≡ false
      → add_mac dbl now n mac dev ≡ (n, false)
  unfolding add_mac
  add_mac_refused now n mac dev h = rw h

  pub add_mac_known :
      (now : D) (n : Network D) (mac dev : Text)
      → All (Timed dbl) n.macs_seen
      → mac_allowed n mac ≡ true
      → any (matches dev mac) n.macs_seen ≡ true
      → add_mac dbl now n mac dev ≡ (record n { macs_seen = touch now mac dev n.macs_seen }, false)
  unfolding add_mac
  add_mac_known now n mac dev timed h k =
      rw (h, k, mac_last_seen_known dbl n.macs_seen mac dev timed, k)

  pub add_mac_new :
      (now : D) (n : Network D) (mac dev : Text)
      → All (Timed dbl) n.macs_seen
      → mac_allowed n mac ≡ true
      → any (matches dev mac) n.macs_seen ≡ false
      → add_mac dbl now n mac dev ≡ (
        record (schedule_event n (discovered dev mac)) {
          macs_seen = n.macs_seen ++ (new_entity dbl now mac dev ∷ []);
        },
        true,
      )
  unfolding add_mac
  add_mac_new now n mac dev timed h k =
      rw (h, k, mac_last_seen_known dbl n.macs_seen mac dev timed, k)

  -- `addMAC`, at a time that is not -1, keeps the invariant on each of its branches, and the events
  -- that it schedules lead from the pairs of a device and an address before it to those after it.
  pub add_mac-Sound :
      (now : D) (n : Network D) (mac dev : Text)
      → dbl.eq now dbl.minus_one ≡ false
      → Sound n (add_mac dbl now n mac dev).0
  unfolding mac_allowed replay follow mac_event
  add_mac-Sound now n mac dev time v = elim (Bool-cases (mac_allowed n mac)) [
    | inr refused ↦ rw (add_mac_refused now n mac dev refused) (v, Tracks-refl n)
    | inl allowed ↦ elim (Bool-cases (any (matches dev mac) n.macs_seen)) [
      | inl present ↦ rw (add_mac_known now n mac dev v.timed allowed present) (
        record {
          distinct = rw (pairs-touch now mac dev n.macs_seen) v.distinct;
          real = touch-Real now mac dev n.macs_seen v.real;
          timed = touch-Timed dbl now mac dev n.macs_seen time v.timed;
        },
        record {
          scheduled = [];
          logged = sym (append-nil n.events);
          followed = sym (pairs-touch now mac dev n.macs_seen);
        },
      )
      | inr new ↦
          let e = new_entity dbl now mac dev in
          let free : has dev mac (pairs n.macs_seen) ≡ false =
            sym (has-pairs dev mac n.macs_seen) ∙ new in
          let real : Real e = ground (arith, allowed) in
          rw (add_mac_new now n mac dev v.timed allowed new) (
            record {
              distinct =
                  rw (pairs-append n.macs_seen (e ∷ []))
                    (Distinct-concat dev mac (pairs n.macs_seen) v.distinct free);
              real = All-append Real n.macs_seen (e ∷ []) v.real (real, tt);
              timed = All-append (Timed dbl) n.macs_seen (e ∷ []) v.timed (time, tt);
            },
            record {
              scheduled = discovered dev mac ∷ [];
              logged = refl;
              followed = sym (pairs-append n.macs_seen (e ∷ []));
            },
          )
    ]
  ]
