-- ===== src/Network/Tracking.antt =====
-- The operations of macdetectd/src/Network.cpp on the seen addresses: each keeps the invariant of
-- the list, and schedules just the events by which a client can follow it.
use macdetect.Base.{
  Bool, true, false, not, ◌&&◌, List, [], ◌∷◌, ◌++◌, Text, str_eq, ◌≡◌, refl, sym, ap, ◌∙◌, arith,
  any, append_assoc, append-nil, All,
}
use macdetect.Doubles.{Doubles}
use macdetect.Event.{Event}
use macdetect.Network.{MacEntity, Network}
use macdetect.Network.Macs.{no_mac, broadcast_mac, matches, mac_last_seen, touch}
use macdetect.Network.Replay.{pairs, replay, replay-append, Distinct}

abbrev pub is_real : Text → Bool
is_real mac = not (str_eq mac no_mac) && not (str_eq mac broadcast_mac)

abbrev pub Real : {D : Type 0} → MacEntity D → Type 0
Real e = is_real e.mac ≡ true

module _ {D : Type 0} (dbl : Doubles D) where
  -- -1 is what `macLastSeen` gives for an address that is not known.
  abbrev pub Timed : MacEntity D → Type 0
  Timed e = dbl.eq e.last_seen dbl.minus_one ≡ false

  -- No pair of a device and an address is there twice; neither the zero address nor the broadcast
  -- address is there; and no time is the one that stands for an unknown address.
  pub record Inv (n : Network D) : Type 0 where
    pub distinct : Distinct (pairs n.macs_seen)
    pub real : All Real n.macs_seen
    pub timed : All Timed n.macs_seen

module _ {D : Type 0} where
  -- The events that an operation schedules lead from the pairs before it to the pairs after it.
  pub record Tracks (n n' : Network D) : Type 0 where
    pub scheduled : List Event
    pub logged : n'.events ≡ n.events ++ scheduled
    pub followed : replay (pairs n.macs_seen) scheduled ≡ pairs n'.macs_seen

  pub Tracks-refl : (n : Network D) → Tracks n n
  unfolding replay
  Tracks-refl n = record { scheduled = []; logged = sym (append-nil n.events); followed = refl }

  pub Tracks-trans : {n m k : Network D} → Tracks n m → Tracks m k → Tracks n k
  Tracks-trans {n} {m} {k} s t = record {
    scheduled = s.scheduled ++ t.scheduled;
    logged =
        t.logged
        ∙ ap (λ l. l ++ t.scheduled) s.logged
        ∙ append_assoc n.events s.scheduled t.scheduled;
    followed =
        replay-append (pairs n.macs_seen) s.scheduled t.scheduled
        ∙ ap (λ ps. replay ps t.scheduled) s.followed
        ∙ t.followed;
  }

  pub pairs-touch :
      (now : D) (mac dev : Text) (es : List (MacEntity D)) → pairs (touch now mac dev es) ≡ pairs es
  unfolding touch
  pairs-touch now mac dev [] = refl
  pairs-touch now mac dev (e ∷ es) = ground (arith, pairs-touch now mac dev es)

  pub touch-Real :
      (now : D) (mac dev : Text) (es : List (MacEntity D))
      → All Real es
      → All Real (touch now mac dev es)
  unfolding touch
  touch-Real now mac dev [] h = tt
  touch-Real now mac dev (e ∷ es) h = ground (arith, touch-Real now mac dev es)

module _ {D : Type 0} (dbl : Doubles D) where
  pub touch-Timed :
      (now : D) (mac dev : Text) (es : List (MacEntity D))
      → dbl.eq now dbl.minus_one ≡ false
      → All (Timed dbl) es
      → All (Timed dbl) (touch now mac dev es)
  unfolding touch
  touch-Timed now mac dev [] k h = tt
  touch-Timed now mac dev (e ∷ es) k h = ground (arith, touch-Timed now mac dev es)

  -- `macLastSeen` gives -1 for the unknown addresses, and for these only.
  pub mac_last_seen_known :
      (es : List (MacEntity D)) (mac dev : Text)
      → All (Timed dbl) es
      → dbl.eq (mac_last_seen dbl es mac dev) dbl.minus_one ≡ not (any (matches dev mac) es)
  unfolding mac_last_seen
  mac_last_seen_known [] mac dev h = dbl.eq-minus_one
  mac_last_seen_known (e ∷ es) mac dev h = ground (arith, mac_last_seen_known es mac dev h.1)
