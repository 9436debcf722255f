-- ===== src/Network/EvidenceLaws.antt =====
-- `Network::updateMACEvidence` and the reading of frames in macdetectd/src/Network.cpp, by what they
-- change and what they leave alone.
use macdetect.Base.{
  text, length, leb, ◌<◌, true, false, ◌&&◌, List, [], ◌∷◌, ◌++◌, none, some, Text, str_eq,
  str_eq_iff, ◌≡◌, refl, ap, Bool-cases, inl, inr, append-nil, if◌then◌else◌, arith,
}
use macdetect.Base.Dict.{insert, lookup-insert}
use macdetect.Doubles.{Doubles}
use macdetect.Device.{Device, mac_text}
use macdetect.Network.Activity.{has_header, source_mac, take_frame}
use macdetect.Event.{mac_event, mac_evidence_changed, set_evidence}
use macdetect.Network.System.{System}
use macdetect.Network.Macs.{mac_allowed, add_mac}
use macdetect.Network.Evidence.{evidence_for, value_for, update_mac_evidence}
use macdetect.Network.{Network}

evidence_for-insert :
    (mac j : Text) (x : List (Text × Text)) (m : List (Text × List (Text × Text)))
    → evidence_for (insert mac x m) j ≡ (if str_eq mac j then x else evidence_for m j)
evidence_for-insert mac j x m = ground (arith, lookup-insert mac j x m)

value_for-insert :
    (key k x : Text) (m : List (Text × Text))
    → value_for (insert key x m) k ≡ (if str_eq key k then x else value_for m k)
value_for-insert key k x m = ground (arith, lookup-insert key k x m)

module _ {D : Type 0} (n : Network D) (dev mac key content : Text) where
  stored :
      mac_allowed n mac ≡ true
      → (update_mac_evidence n dev mac key content).mac_evidence
        ≡ insert mac (insert key content (evidence_for n.mac_evidence mac)) n.mac_evidence
  unfolding update_mac_evidence
  stored allowed =
      elim (Bool-cases (str_eq (value_for (evidence_for n.mac_evidence mac) key) content)) [
        | inl old ↦ rw (allowed, old)
        | inr new ↦ rw (allowed, new)
      ]

  -- After an update of an address that is allowed, the field of the address has the content, and
  -- every other field of every address is as it was.
  pub value_for-update :
      mac_allowed n mac ≡ true
      → (j k : Text)
      → value_for (evidence_for (update_mac_evidence n dev mac key content).mac_evidence j) k ≡ (
          if str_eq mac j && str_eq key k
          then content
          else value_for (evidence_for n.mac_evidence j) k)
  value_for-update allowed j k =
      rw (stored allowed, evidence_for-insert mac j _ n.mac_evidence)
        (elim (Bool-cases (str_eq mac j)) [
          | inr other ↦ rw other
          | inl same ↦
              rw (same, value_for-insert key k content (evidence_for n.mac_evidence mac))
                (ap
                  (λ m.
                    if str_eq key k then content else value_for (evidence_for n.mac_evidence m) k)
                  ((str_eq_iff mac j).0 same))
        ])

  -- For an address that is allowed the change is reported if and only if the content is new, with the
  -- old content beside it.
  pub events-update :
      mac_allowed n mac ≡ true
      → (update_mac_evidence n dev mac key content).events
        ≡ n.events
          ++ (if str_eq (value_for (evidence_for n.mac_evidence mac) key) content
              then []
              else set_evidence
                  (mac_event mac_evidence_changed dev mac)
                  key
                  content
                  (value_for (evidence_for n.mac_evidence mac) key)
                ∷ [])
  unfolding update_mac_evidence
  events-update allowed =
      elim (Bool-cases (str_eq (value_for (evidence_for n.mac_evidence mac) key) content)) [
        | inl old ↦ rw (allowed, old, append-nil)
        | inr new ↦ rw (allowed, new)
      ]

module _ {D : Type 0} (dbl : Doubles D) (sys : System D) (n : Network D) (d : Device D) where
  -- A read that fails changes nothing. It passes the test for a header, as -1 is compared to an
  -- unsigned size, but the empty buffer then gives the zero address, which is never added, and no
  -- protocol.
  pub take_frame-failed :
      sys.frame d.device_name ≡ none
      → (has_header (sys.frame d.device_name) ≡ true) × (take_frame dbl sys n d ≡ n)
  unfolding take_frame has_header source_mac mac_text add_mac mac_allowed text str_eq
  take_frame-failed failed = rw failed (refl, refl)

  -- A read that gives less than an Ethernet header changes nothing either.
  pub take_frame-short :
      (bytes : Text)
      → sys.frame d.device_name ≡ some bytes
      → length bytes < 14
      → take_frame dbl sys n d ≡ n
  unfolding take_frame has_header
  take_frame-short bytes read short =
      let no_header : leb 14 (length bytes) ≡ false = ground arith in rw (read, no_header)
