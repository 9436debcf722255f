-- ===== src/Daemon/Replies.antt =====
-- The answers to requests in macdetectd/src/Daemon.cpp tell nothing of the events, and change neither
-- the server, nor the devices nor the seen addresses.
use macdetect.Base.{
  ℕ, Bool, true, false, List, [], ◌∷◌, Option, none, some, Text, text, str_eq, if◌then◌else◌, ◌≡◌,
  refl, ◌∙◌, Bool-cases, Option-cases, inl, inr, All, All-append, arith,
}
use mathlib.Core.Path.{subst}
use macdetect.Doubles.{Doubles}
use macdetect.Value.{Value, key, content, sub, find_key, add, add_pairs, push_back, make}
use macdetect.Network.Evidence.{mac_evidence_of}
use macdetect.Server.{Server, QueuedValue, Sent, Clients, hello, cycle as server_cycle}
use macdetect.Daemon.Requests.{
  serving_device, answer_mac_evidence, answer_enable, answer_disable, answer_request, handle_value,
  handle_values, response,
}
use macdetect.Daemon.Streams.{stream_enabled}
use macdetect.Daemon.Cycle.{keep_alive, keep_alive_value}
use macdetect.Daemon.View.{track}
use macdetect.Daemon.Delivery.{IsSilent, copies-IsSilent}
use macdetect.Daemon.{Daemon}

-- A response is no notice.
response-IsSilent : (c : Text) (x : Value) → IsSilent (0, add (make (text "response") c []) x)
unfolding track text str_eq key add make add_pairs
response-IsSilent c x name ms = refl

keep_alive_value-IsSilent : IsSilent (0, keep_alive_value)
unfolding track text str_eq key content make add_pairs
keep_alive_value-IsSilent name ms = ground arith

module _ {D : Type 0} where
  -- The same server, seen addresses, events and devices.
  abbrev pub IsSame : Daemon D → Daemon D → Type 0
  IsSame d d' =
      (d'.server ≡ d.server)
      × (d'.network.macs_seen ≡ d.network.macs_seen)
      × (d'.network.events ≡ d.network.events)
      × (d'.network.devices ≡ d.network.devices)

  abbrev pub IsReply : Daemon D → Option (Daemon D × Sent) → Type 0
  IsReply d none = Unit {0}
  IsReply d (some r) = IsSame d r.0 × All IsSilent r.1

  IsSame-trans : (d e f : Daemon D) → IsSame d e → IsSame e f → IsSame d f
  IsSame-trans d e f h k = (k.0 ∙ h.0, k.1 ∙ h.1, k.2 ∙ h.2, k.3 ∙ h.3)

  branch-IsSame :
      (d : Daemon D) (b : Bool) (x y : Daemon D × Value)
      → IsSame d x.0
      → IsSame d y.0
      → IsSame d (if b then x else y).0
  branch-IsSame d true x y h k = h
  branch-IsSame d false x y h k = k

  answer_mac_evidence-IsSame :
      (d : Daemon D) (mac : Option Value) → IsSame d (answer_mac_evidence d mac).0
  unfolding answer_mac_evidence mac_evidence_of
  answer_mac_evidence-IsSame d none = (refl, refl, refl, refl)
  answer_mac_evidence-IsSame d (some mac) = (refl, refl, refl, refl)

  answer_enable-IsSame :
      (d : Daemon D) (q : QueuedValue) (device : Option Value)
      → IsSame d (answer_enable d q device).0
  unfolding answer_enable
  answer_enable-IsSame d q none = (refl, refl, refl, refl)
  answer_enable-IsSame d q (some device) =
      branch-IsSame d (stream_enabled d.streams q.served (serving_device d.server q.serving_id)) _ _
        (refl, refl, refl, refl) (refl, refl, refl, refl)

  answer_disable-IsSame :
      (d : Daemon D) (q : QueuedValue) (device : Option Value)
      → IsSame d (answer_disable d q device).0
  unfolding answer_disable
  answer_disable-IsSame d q none = (refl, refl, refl, refl)
  answer_disable-IsSame d q (some device) =
      branch-IsSame d (stream_enabled d.streams q.served (serving_device d.server q.serving_id)) _ _
        (refl, refl, refl, refl) (refl, refl, refl, refl)

  answer_request-IsSame :
      (dbl : Doubles D) (d : Daemon D) (q : QueuedValue) → IsSame d (answer_request dbl d q).0
  unfolding answer_request
  answer_request-IsSame dbl d q =
      let request = content q.value in
      branch-IsSame d (str_eq request (text "devices-list")) _ _ (refl, refl, refl, refl)
        (branch-IsSame d (str_eq request (text "known-mac-addresses")) _ _ (refl, refl, refl, refl)
          (branch-IsSame d (str_eq request (text "mac-evidence")) _ _
            (answer_mac_evidence-IsSame d (sub q.value (text "mac-address")))
            (branch-IsSame d (str_eq request (text "enable-stream")) _ _
              (answer_enable-IsSame d q (sub q.value (text "device-name")))
              (branch-IsSame d (str_eq request (text "disable-stream")) _ _
                (answer_disable-IsSame d q (sub q.value (text "device-name")))
                (refl, refl, refl, refl)))))

  pub handle_value-IsReply :
      (dbl : Doubles D) (d : Daemon D) (q : QueuedValue) → IsReply d (handle_value dbl d q)
  unfolding handle_value response
  handle_value-IsReply dbl d q = elim (Bool-cases (str_eq (key q.value) (text "request"))) [
    | inl request ↦ rw request (
      answer_request-IsSame dbl d q,
      (response-IsSilent (content q.value) (answer_request dbl d q).1, tt),
    )
    | inr other ↦ rw other tt
  ]

  pub handle_values-IsReply :
      (dbl : Doubles D) (d : Daemon D) (qs : List QueuedValue) → IsReply d (handle_values dbl d qs)
  unfolding handle_values
  handle_values-IsReply dbl d [] = ((refl, refl, refl, refl), tt)
  handle_values-IsReply dbl d (q ∷ qs) = elim (Option-cases (handle_value dbl d q)) [
    | inl bad ↦ rw (handle_values, bad) tt
    | inr (r, good) ↦
        let first = subst (IsReply d) good (handle_value-IsReply dbl d q) in
        let later = handle_values-IsReply dbl r.0 qs in
        elim (Option-cases (handle_values dbl r.0 qs)) [
          | inl bad ↦ rw (handle_values, good, bad) tt
          | inr (r', fine) ↦
              let rest = subst (IsReply r.0) fine later in
              rw (handle_values, good, fine)
                (
                  IsSame-trans d r.0 r'.0 first.0 rest.0,
                  All-append IsSilent r.1 r'.1 first.1 rest.1,
                )
        ]
  ]

  pub keep_alive-IsSame :
      (dbl : Doubles D) (now : D) (d : Daemon D)
      → IsSame d (keep_alive dbl now d).0
        × ((keep_alive dbl now d).0.streams ≡ d.streams)
        × All IsSilent (keep_alive dbl now d).1
  unfolding keep_alive
  keep_alive-IsSame dbl now d =
      elim (Bool-cases (dbl.gt now (dbl.plus d.last_keep_alive d.keep_alive_interval))) [
        | inl due ↦ rw due (
          (refl, refl, refl, refl),
          refl,
          copies-IsSilent (λ (c : ℕ × ℕ). c.0) keep_alive_value d.server.served
              keep_alive_value-IsSilent,
        )
        | inr early ↦ rw early ((refl, refl, refl, refl), refl, tt)
      ]

hello-IsSilent : (server_name : Text) → IsSilent (0, hello server_name)
unfolding track hello text str_eq key content add make add_pairs sub find_key push_back
hello-IsSilent server_name name ms = ground arith

pub server_cycle-IsSilent : (env : Clients) (s : Server) → All IsSilent (server_cycle env s).1
unfolding server_cycle
server_cycle-IsSilent env s = elim (Bool-cases s.run) [
  | inl up ↦
      rw up (
        copies-IsSilent (λ (c : ℕ × ℕ). c.0) (hello s.server_name) _ (hello-IsSilent s.server_name))
  | inr down ↦ rw down tt
]
