-- ===== src/Daemon/Answering.antt =====
-- The second loop of `Daemon::cycle` in macdetectd/src/Daemon.cpp answers each request once.
use macdetect.Base.{
  ℕ, true, ap₂, List, [], ◌∷◌, ◌++◌, Option, none, some, Text, text, str_eq, ◌==◌, ◌≡◌, refl, ◌∙◌,
  Bool-cases, Option-cases, inl, inr, arith,
}
use mathlib.Core.Path.{subst}
use macdetect.Doubles.{Doubles}
use macdetect.Value.{
  Value, key, content, sub, sub_values, find_key, add, add_pairs, push_back, set, make,
}
use macdetect.Network.Replay.{pairs}
use macdetect.Device.{Device}
use macdetect.Network.Names.{names}
use macdetect.Network.{MacEntity}
use macdetect.Server.{Sent, QueuedValue}
use macdetect.Server.Queue.{of_client}
use macdetect.Daemon.Requests.{
  empty_value, devices_list, response, answer_request, known_macs, handle_value, handle_values,
}
use macdetect.Daemon.View.{macs_on}
use macdetect.Daemon.Replies.{IsReply, handle_value-IsReply}
use macdetect.Daemon.Answers.{
  is_response, responses, responses-append, read_macs, read_known, read_devices, value_keys,
  key-devices_list, value_keys-devices_list, read_macs-known_macs, key-known_macs,
}
use macdetect.Daemon.{Daemon}

-- What the daemon knows: the addresses on a device, and the names of the devices.
pub record Knowledge : Type 0 where
  pub macs_of : Text → List Text
  pub all_names : List Text

module _ {D : Type 0} where
  abbrev pub known_of : List (MacEntity D) → List (Device D) → Knowledge
  known_of es ds = record { macs_of = λ name. macs_on name (pairs es); all_names = names ds }

  abbrev pub known_in : Daemon D → Knowledge
  known_in d = known_of d.network.macs_seen d.network.devices

-- The response to a request: it has the content of the request, and what is known is read from it,
-- where this is asked for.
pub record IsAnswer (known : Knowledge) (q : QueuedValue) (w : Value) : Type 0 where
  pub same : content w ≡ content q.value
  pub tells :
      content q.value ≡ text "known-mac-addresses"
      → (name : Text) → read_known name w ≡ known.macs_of name
  pub lists : content q.value ≡ text "devices-list" → read_devices w ≡ known.all_names

-- One response to each request, in their order.
abbrev pub AreAnswers : Knowledge → List QueuedValue → List Value → Type 0
AreAnswers known [] [] = Unit {0}
AreAnswers known [] (w ∷ ws) = ⊥
AreAnswers known (q ∷ qs) [] = ⊥
AreAnswers known (q ∷ qs) (w ∷ ws) = IsAnswer known q w × AreAnswers known qs ws

AreAnswers-append :
    (known : Knowledge) (qs ps : List QueuedValue) (ws vs : List Value)
    → AreAnswers known qs ws
    → AreAnswers known ps vs
    → AreAnswers known (qs ++ ps) (ws ++ vs)
AreAnswers-append known [] ps [] vs a b = b
AreAnswers-append known [] ps (w ∷ ws) vs a b = absurd a
AreAnswers-append known (q ∷ qs) ps [] vs a b = absurd a
AreAnswers-append known (q ∷ qs) ps (w ∷ ws) vs a b =
    (a.0, AreAnswers-append known qs ps ws vs a.1 b)

module _ {D : Type 0} (dbl : Doubles D) (h : ℕ) where
  known_answer :
      (d : Daemon D) (q : QueuedValue)
      → content q.value ≡ text "known-mac-addresses"
      → (answer_request dbl d q).1
        ≡ known_macs dbl d.network d.network.macs_seen
            (set empty_value (text "known-mac-addresses") [])
  unfolding answer_request text str_eq
  known_answer d q e = rw e

  read_known-inner :
      (c : Text) (name : Text) (inner : Value)
      → str_eq (key inner) (text "known-mac-addresses") ≡ true
      → read_known name (add (make (text "response") c []) inner)
        ≡ read_macs name (sub_values inner)
  unfolding read_known sub find_key add make add_pairs push_back
  read_known-inner c name inner found = rw (read_known, found)

  read_known-response :
      (d : Daemon D) (c : Text) (name : Text)
      → read_known name (
          add (make (text "response") c []) (
            known_macs dbl d.network d.network.macs_seen
              (set empty_value (text "known-mac-addresses") [])))
        ≡ macs_on name (pairs d.network.macs_seen)
  read_known-response d c name =
      let start = set empty_value (text "known-mac-addresses") [] in
      let seen = d.network.macs_seen in
      let found : str_eq (key (known_macs dbl d.network seen start)) (text "known-mac-addresses")
          ≡ true =
        rw (key-known_macs dbl d.network seen start) (unfold key set text str_eq in refl) in
      read_known-inner c name (known_macs dbl d.network seen start) found
      ∙ read_macs-known_macs dbl name d.network seen start
      ∙ (unfold sub_values set read_macs in refl)

  devices_answer :
      (d : Daemon D) (q : QueuedValue)
      → content q.value ≡ text "devices-list"
      → (answer_request dbl d q).1
        ≡ devices_list d.network.devices (set empty_value (text "devices-list") [])
  unfolding answer_request text str_eq
  devices_answer d q e = rw e

  read_devices-inner :
      (c : Text) (inner : Value)
      → str_eq (key inner) (text "devices-list") ≡ true
      → read_devices (add (make (text "response") c []) inner) ≡ value_keys (sub_values inner)
  unfolding read_devices sub find_key add make add_pairs push_back
  read_devices-inner c inner found = rw (read_devices, found)

  read_devices-response :
      (ds : List (Device D)) (c : Text)
      → read_devices (
          add
            (make (text "response") c [])
            (devices_list ds (set empty_value (text "devices-list") [])))
        ≡ names ds
  read_devices-response ds c =
      let start = set empty_value (text "devices-list") [] in
      let found : str_eq (key (devices_list ds start)) (text "devices-list") ≡ true =
        rw (key-devices_list ds start) (unfold key set text str_eq in refl) in
      read_devices-inner c (devices_list ds start) found
      ∙ value_keys-devices_list ds start
      ∙ (unfold sub_values set value_keys in refl)

  abbrev pub AreAnswersIfAny : Daemon D → List QueuedValue → Option (Daemon D × Sent) → Type 0
  AreAnswersIfAny d qs none = Unit {0}
  AreAnswersIfAny d qs (some r) = AreAnswers (known_in d) (of_client h qs) (responses h r.1)

  handle_value-AreAnswers :
      (d : Daemon D) (q : QueuedValue) → AreAnswersIfAny d (q ∷ []) (handle_value dbl d q)
  unfolding handle_value response responses
  handle_value-AreAnswers d q = elim (Bool-cases (str_eq (key q.value) (text "request"))) [
    | inr other ↦ rw other tt
    | inl request ↦ elim (Bool-cases (q.served == h)) [
      | inr foreign ↦ rw (request, foreign) tt
      | inl own ↦
          let answer : IsAnswer (known_in d) q
              (add (make (text "response") (content q.value) []) (answer_request dbl d q).1) =
            record {
              same = unfold add make add_pairs content in refl;
              tells =
                  λ e name. rw (known_answer d q e) (read_known-response d (content q.value) name);
              lists = λ e.
                  rw (devices_answer d q e)
                    (read_devices-response d.network.devices (content q.value));
            } in
          let is : is_response
                (add (make (text "response") (content q.value) []) (answer_request dbl d q).1)
              ≡ true =
            unfold add make add_pairs key text str_eq in refl in
          rw (request, own, is) (answer, tt)
    ]
  ]

  of_client-cons :
      (q : QueuedValue) (qs : List QueuedValue)
      → of_client h (q ∷ qs) ≡ of_client h (q ∷ []) ++ of_client h qs
  of_client-cons q qs = ground arith

  -- The requests of a client get one response each, in their order, and no other response is sent to
  -- it. The response to the request for the known addresses has those that are known.
  pub handle_values-AreAnswers :
      (d : Daemon D) (qs : List QueuedValue) → AreAnswersIfAny d qs (handle_values dbl d qs)
  unfolding handle_values responses
  handle_values-AreAnswers d [] = tt
  handle_values-AreAnswers d (q ∷ qs) = elim (Option-cases (handle_value dbl d q)) [
    | inl bad ↦ rw (handle_values, bad) tt
    | inr (r, good) ↦
        let first = subst (AreAnswersIfAny d (q ∷ [])) good (handle_value-AreAnswers d q) in
        let same = subst (IsReply d) good (handle_value-IsReply dbl d q) in
        let later = handle_values-AreAnswers r.0 qs in
        elim (Option-cases (handle_values dbl r.0 qs)) [
          | inl bad ↦ rw (handle_values, good, bad) tt
          | inr (r', fine) ↦
              let rest = subst (AreAnswersIfAny r.0 qs) fine later in
              let known : known_in r.0 ≡ known_in d = ap₂ known_of same.0.1 same.0.3 in
              rw (handle_values, good, fine, of_client-cons q qs, responses-append h r.1 r'.1)
                (AreAnswers-append (known_in d) (of_client h (q ∷ [])) (of_client h qs)
                  (responses h r.1) (responses h r'.1) first
                  (subst (λ k. AreAnswers k (of_client h qs) (responses h r'.1)) known rest))
        ]
  ]
