-- ===== src/Network/Loops.antt =====
-- The loops of macdetectd/src/Network.cpp that erase one element and start again from the front:
-- what they come to, in one pass over the list.
use macdetect.Base.{
  ℕ, zero, suc, ◌≤◌, Bool, true, false, List, [], ◌∷◌, ◌++◌, map, some, Text, str_eq, str_eq_refl,
  ◌≡◌, refl, sym, ◌∙◌, ap, ap₂, All, inl, inr, take_first, take_first-cases, reject, reject-All,
  reject-middle, select, select-middle, select_none, length, length-middle, append_assoc,
  append-nil, arith,
}
use macdetect.Doubles.{Doubles}
use macdetect.Event.{Event, device_event, device_removed}
use macdetect.Network.Macs.{disappeared, matches, is_old, expire, remove_mac, remove_device_macs}
use macdetect.Network.Devices.{without_device, remove_device}
use macdetect.Network.{MacEntity, Network, schedule_event}

module _ {ℓ} {A : Type ℓ} (p : A → Bool) where
  All-of_empty : (xs : List A) → length xs ≤ 0 → All (λ x. p x ≡ false) xs
  All-of_empty [] h = tt
  All-of_empty (x ∷ xs) h = absurd (omega arith)

  -- A loop that finds no more element leaves the list as it is, and reports nothing.
  settled {κ} :
      {B : Type κ} (f : A → B) (xs : List A)
      → All (λ x. p x ≡ false) xs
      → (xs ≡ reject p xs) × (map f (select p xs) ≡ [])
  settled f xs h = (sym (reject-All p xs h), ap (map f) (select_none p xs h))

-- `take_first` at a place that is known.
take_first-middle {ℓ} :
    {A : Type ℓ} (p : A → Bool) (xs : List A) (x : A) (ys : List A)
    → All (λ y. p y ≡ false) xs
    → p x ≡ true
    → take_first p (xs ++ x ∷ ys) ≡ some (x, xs ++ ys)
unfolding take_first
take_first-middle p [] x ys k h = rw h
take_first-middle p (z ∷ xs) x ys k h = rw (k.0, take_first-middle p xs x ys k.1 h)

module _ {D : Type 0} where
  abbrev pub gone : MacEntity D → Event
  gone e = disappeared e.device_name e.mac

  -- The state with other seen addresses, and with more events.
  abbrev pub after : Network D → List (MacEntity D) → List Event → Network D
  after n es more = record n { macs_seen = es; events = n.events ++ more }

  module _ (n : Network D) (p : MacEntity D → Bool) (f : MacEntity D → Event) where
    stays :
        All (λ e. p e ≡ false) n.macs_seen
        → n ≡ after n (reject p n.macs_seen) (map f (select p n.macs_seen))
    stays h =
        let (same, silent) = settled p f n.macs_seen h in
        ap₂ (λ es l. record n { macs_seen = es; events = l }) same
          (sym (append-nil n.events) ∙ ap (◌++◌ n.events) (sym silent))

    steps :
        (xs : List (MacEntity D)) (x : MacEntity D) (ys : List (MacEntity D))
        → n.macs_seen ≡ xs ++ x ∷ ys
        → All (λ e. p e ≡ false) xs
        → p x ≡ true
        → after (after n (xs ++ ys) (f x ∷ [])) (reject p (xs ++ ys)) (map f (select p (xs ++ ys)))
          ≡ after n (reject p n.macs_seen) (map f (select p n.macs_seen))
    steps xs x ys e k h =
        ap₂ (λ es l. record n { macs_seen = es; events = l })
          (reject-middle p xs x ys n.macs_seen e h)
          (append_assoc n.events (f x ∷ []) (map f (select p (xs ++ ys)))
            ∙ ap (◌++◌ n.events) (ap (map f) (select-middle p xs x ys n.macs_seen e k h)))

  -- The loop of `cycle` drops exactly the addresses that are too old, keeps the others in their
  -- order, and reports each that it drops, in the order of the list. The number of the addresses, or
  -- more, is fuel enough.
  pub expire_lem :
      (dbl : Doubles D) (now : D) (f : ℕ) (n : Network D)
      → length n.macs_seen ≤ f
      → expire dbl now f n
        ≡ after n
            (reject (is_old dbl now n) n.macs_seen)
            (map gone (select (is_old dbl now n) n.macs_seen))
  unfolding expire is_old
  expire_lem dbl now zero n h =
      stays n (is_old dbl now n) gone (All-of_empty (is_old dbl now n) n.macs_seen h)
  expire_lem dbl now (suc f) n h = elim (take_first-cases (is_old dbl now n) n.macs_seen) [
    | inl (e, young) ↦ rw (e, expire) (stays n (is_old dbl now n) gone young)
    | inr s ↦
        let rest = s.before ++ s.behind in
        let fewer = length-middle s.before s.found s.behind n.macs_seen s.splits in
        rw (s.taken, expire)
          (expire_lem dbl now f (after n rest (gone s.found ∷ [])) (omega arith)
            ∙ steps n (is_old dbl now n) gone s.before s.found s.behind s.splits s.none_before
                s.passes)
  ]

  abbrev pub on_device : Text → MacEntity D → Bool
  on_device name e = str_eq e.device_name name

  unmatched :
      (name mac : Text) (xs : List (MacEntity D))
      → All (λ e. on_device name e ≡ false) xs
      → All (λ e. matches name mac e ≡ false) xs
  unmatched name mac [] k = tt
  unmatched name mac (x ∷ xs) k = (rw k.0, unmatched name mac xs k.1)

  remove_mac-middle :
      (n : Network D) (name : Text) (xs : List (MacEntity D)) (x : MacEntity D)
      (ys : List (MacEntity D))
      → n.macs_seen ≡ xs ++ x ∷ ys
      → All (λ e. on_device name e ≡ false) xs
      → on_device name x ≡ true
      → remove_mac n name x.mac ≡ after n (xs ++ ys) (disappeared name x.mac ∷ [])
  unfolding remove_mac
  remove_mac-middle n name xs x ys e k h =
      let found : take_first (matches name x.mac) n.macs_seen ≡ some (x, xs ++ ys) =
        ap (take_first (matches name x.mac)) e
        ∙ take_first-middle (matches name x.mac) xs x ys (unmatched name x.mac xs k)
            (rw (h, str_eq_refl x.mac)) in
      rw (found, remove_mac)

  -- The loop of `removeDevice` drops exactly the addresses of the device, and reports each.
  pub remove_device_macs_lem :
      (f : ℕ) (n : Network D) (name : Text)
      → length n.macs_seen ≤ f
      → remove_device_macs f n name
        ≡ after n
            (reject (on_device name) n.macs_seen)
            (map (λ e. disappeared name e.mac) (select (on_device name) n.macs_seen))
  unfolding remove_device_macs
  remove_device_macs_lem zero n name h =
      stays n (on_device name) _ (All-of_empty (on_device name) n.macs_seen h)
  remove_device_macs_lem (suc f) n name h = elim (take_first-cases (on_device name) n.macs_seen) [
    | inl (e, other) ↦ rw (e, remove_device_macs) (stays n (on_device name) _ other)
    | inr s ↦
        let rest = s.before ++ s.behind in
        let fewer = length-middle s.before s.found s.behind n.macs_seen s.splits in
        let one =
          remove_mac-middle n name s.before s.found s.behind s.splits s.none_before s.passes in
        rw (s.taken, remove_device_macs, one)
          (remove_device_macs_lem f (after n rest (disappeared name s.found.mac ∷ [])) name
              (omega arith)
            ∙ steps n (on_device name) (λ e. disappeared name e.mac) s.before s.found s.behind
                s.splits s.none_before s.passes)
  ]

  -- `removeDevice` leaves no address of the device and keeps all others in their order. It reports
  -- the device first, known or not, and then each of its addresses. Its result is false always.
  pub remove_device_lem :
      (n : Network D) (name : Text)
      → ((remove_device n name).0.macs_seen ≡ reject (on_device name) n.macs_seen)
        × ((remove_device n name).0.events
            ≡ n.events
              ++ device_event device_removed name
                ∷ map (λ e. disappeared name e.mac) (select (on_device name) n.macs_seen))
        × ((remove_device n name).1 ≡ false)
  unfolding remove_device
  remove_device_lem n name =
      let n' =
        schedule_event (record n { devices = without_device n.devices name })
          (device_event device_removed name) in
      let whole = remove_device_macs_lem (length n.macs_seen) n' name (omega arith) in
      (
        ap (λ m. m.macs_seen) whole,
        ap (λ m. m.events) whole ∙ append_assoc n.events (device_event device_removed name ∷ []) _,
        refl,
      )
