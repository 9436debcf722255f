-- ===== src/Daemon/Answers.antt =====
-- The responses among the values that macdetectd/src/Daemon.cpp sends, and what a client reads from
-- the list of the known addresses.
use macdetect.Base.{
  ℕ, Bool, false, ◌&&◌, List, [], ◌∷◌, ◌++◌, map, none, some, Text, text, str_eq, ◌==◌,
  if◌then◌else◌, All, ◌≡◌, refl, sym, ap, ◌∙◌, arith, append_assoc, append-nil,
}
use macdetect.Doubles.{Doubles}
use macdetect.Value.{
  Value, Values, value, nil, cons, key, content, sub, sub_values, find_key, add, add_pair,
  add_pairs, push_back, make,
}
use macdetect.Network.Replay.{pairs}
use macdetect.Network.{MacEntity, Network}
use macdetect.Server.{Sent}
use macdetect.Device.{Device}
use macdetect.Network.Names.{names}
use macdetect.Daemon.Requests.{device_value, devices_list, mac_value, known_macs}
use macdetect.Daemon.View.{field, macs_on}

-- A response, as a client tells it from a notice.
abbrev pub is_response : Value → Bool
is_response v = str_eq (key v) (text "response")

-- The responses to a client.
unfoldable pub responses : ℕ → Sent → List Value
responses h [] = []
responses h ((c, v) ∷ sent) =
    if c == h && is_response v then v ∷ responses h sent else responses h sent

pub responses-append :
    (h : ℕ) (xs ys : Sent) → responses h (xs ++ ys) ≡ responses h xs ++ responses h ys
unfolding responses
responses-append h [] ys = refl
responses-append h ((c, v) ∷ xs) ys = ground (arith, responses-append h xs ys)

abbrev pub IsOther : ℕ × Value → Type 0
IsOther s = is_response s.1 ≡ false

pub responses-IsOther : (h : ℕ) (sent : Sent) → All IsOther sent → responses h sent ≡ []
unfolding responses
responses-IsOther h [] other = refl
responses-IsOther h ((c, v) ∷ sent) other =
    ground (arith, other.0, responses-IsOther h sent other.1)

pub copies-IsOther :
    {A : Type 0} (to : A → ℕ) (v : Value) (xs : List A)
    → IsOther (0, v)
    → All IsOther (map (λ x. (to x, v)) xs)
copies-IsOther to v [] h = tt
copies-IsOther to v (x ∷ xs) h = (h, copies-IsOther to v xs h)

-- The keys of some values.
unfoldable pub value_keys : Values → List Text
value_keys nil = []
value_keys (cons v vs) = key v ∷ value_keys vs

-- The addresses on a device, in the values of a list of addresses.
unfoldable pub read_macs : Text → Values → List Text
unfolding field
read_macs name nil = []
read_macs name (cons v vs) =
    if str_eq (field v (text "device-name")) name
    then key v ∷ read_macs name vs
    else read_macs name vs

-- In the response to the request for the known addresses.
unfoldable pub read_known : Text → Value → List Text
read_known name v = elim (sub v (text "known-mac-addresses")) [
  | some known ↦ read_macs name (sub_values known)
  | none ↦ []
]

-- The names of the devices, in the response to the request for them.
unfoldable pub read_devices : Value → List Text
read_devices v = elim (sub v (text "devices-list")) [
  | some devices ↦ value_keys (sub_values devices)
  | none ↦ []
]

read_macs-push_back :
    (name : Text) (vs : Values) (v : Value)
    → read_macs name (push_back vs v) ≡ read_macs name vs ++ read_macs name (cons v nil)
unfolding read_macs push_back
read_macs-push_back name nil v = refl
read_macs-push_back name (cons w vs) v = ground (arith, read_macs-push_back name vs v)

read_macs-add :
    (name : Text) (v w : Value)
    → read_macs name (sub_values (add v w))
      ≡ read_macs name (sub_values v) ++ read_macs name (cons w nil)
unfolding add sub_values
read_macs-add name (value k c s) w = read_macs-push_back name s w

value_keys-push_back :
    (vs : Values) (v : Value) → value_keys (push_back vs v) ≡ value_keys vs ++ key v ∷ []
unfolding value_keys push_back
value_keys-push_back nil v = refl
value_keys-push_back (cons w vs) v = ap (◌∷◌ (key w)) (value_keys-push_back vs v)

value_keys-add :
    (v w : Value) → value_keys (sub_values (add v w)) ≡ value_keys (sub_values v) ++ key w ∷ []
unfolding add sub_values
value_keys-add (value k c s) w = value_keys-push_back s w

module _ {D : Type 0} where
  key-device_value : (d : Device D) → key (device_value d) ≡ d.device_name
  unfolding device_value key make add_pairs add_pair add
  key-device_value d = refl

  pub value_keys-devices_list :
      (ds : List (Device D)) (v : Value)
      → value_keys (sub_values (devices_list ds v)) ≡ value_keys (sub_values v) ++ names ds
  unfolding devices_list
  value_keys-devices_list [] v = sym (append-nil _)
  value_keys-devices_list (d ∷ ds) v =
      value_keys-devices_list ds (add v (device_value d))
      ∙ ap (λ l. l ++ names ds)
          (value_keys-add v (device_value d)
            ∙ ap (λ k. value_keys (sub_values v) ++ k ∷ []) (key-device_value d))
      ∙ append_assoc (value_keys (sub_values v)) (d.device_name ∷ []) (names ds)

  pub key-devices_list : (ds : List (Device D)) (v : Value) → key (devices_list ds v) ≡ key v
  unfolding devices_list key add
  key-devices_list [] v = refl
  key-devices_list (d ∷ ds) (value k c s) = key-devices_list ds (add (value k c s) (device_value d))

module _ {D : Type 0} (dbl : Doubles D) where
  read_macs-mac_value :
      (name : Text) (n : Network D) (e : MacEntity D)
      → read_macs name (cons (mac_value dbl n e) nil) ≡ macs_on name (pairs (e ∷ []))
  unfolding read_macs mac_value field text str_eq key content sub find_key add add_pair add_pairs
      push_back make macs_on
  read_macs-mac_value name n e = refl

  macs_on-cons :
      (name : Text) (e : MacEntity D) (es : List (MacEntity D))
      → macs_on name (pairs (e ∷ es)) ≡ macs_on name (pairs (e ∷ [])) ++ macs_on name (pairs es)
  unfolding macs_on
  macs_on-cons name e es = ground arith

  pub read_macs-known_macs :
      (name : Text) (n : Network D) (es : List (MacEntity D)) (v : Value)
      → read_macs name (sub_values (known_macs dbl n es v))
        ≡ read_macs name (sub_values v) ++ macs_on name (pairs es)
  unfolding known_macs macs_on
  read_macs-known_macs name n [] v = sym (append-nil _)
  read_macs-known_macs name n (e ∷ es) v =
      read_macs-known_macs name n es (add v (mac_value dbl n e))
      ∙ ap (λ l. l ++ macs_on name (pairs es))
          (read_macs-add name v (mac_value dbl n e)
            ∙ ap (◌++◌ (read_macs name (sub_values v))) (read_macs-mac_value name n e))
      ∙ append_assoc (read_macs name (sub_values v)) (macs_on name (pairs (e ∷ [])))
          (macs_on name (pairs es))
      ∙ ap (◌++◌ (read_macs name (sub_values v))) (sym (macs_on-cons name e es))

  pub key-known_macs :
      (n : Network D) (es : List (MacEntity D)) (v : Value) → key (known_macs dbl n es v) ≡ key v
  unfolding known_macs key add
  key-known_macs n [] v = refl
  key-known_macs n (e ∷ es) (value k c s) =
      key-known_macs n es (add (value k c s) (mac_value dbl n e))
