-- ===== src/Daemon/RequestLaws.antt =====
-- What a request does to the daemon and what its client gets, in macdetectd/src/Daemon.cpp.
use macdetect.Base.{
  ℕ, Bool, true, false, not, ◌&&◌, ◌||◌, List, [], ◌∷◌, none, some, Text, text, str_eq, ◌==◌, any,
  ◌≡◌, ◌≢◌, inl, inr, Bool-cases, Option-cases, arith,
}
use macdetect.Doubles.{Doubles}
use macdetect.Value.{Value, value, nil, cons, key, content, add, add_pairs, make, push_back}
use macdetect.Server.{QueuedValue}
use macdetect.Daemon.Streams.{stream_enabled}
use macdetect.Daemon.StreamLaws.{stream_enabled-enable}
use macdetect.Daemon.Requests.{
  response, serving_device, answer_request, answer_enable, handle_value, handle_values,
}
use macdetect.Daemon.{Daemon}

abbrev pub is_request : QueuedValue → Bool
is_request q = str_eq (key q.value) (text "request")

module _ {D : Type 0} (dbl : Doubles D) where
  -- A request gets one answer, which goes to its client: a `response` with the content of the
  -- request and one value in it.
  pub handle_value_request :
      (d : Daemon D) (q : QueuedValue)
      → is_request q ≡ true
      → (d' : Daemon D) × (inner : Value) × (handle_value dbl d q
          ≡ some (d', (q.served, value (text "response") (content q.value) (cons inner nil)) ∷ []))
  unfolding handle_value response make add_pairs add push_back
  handle_value_request d q h = ((answer_request dbl d q).0, (answer_request dbl d q).1, rw h)

  -- A value that is no request brings the daemon down: there is no answer to put a value into.
  pub handle_value_other :
      (d : Daemon D) (q : QueuedValue) → is_request q ≡ false → handle_value dbl d q ≡ none
  unfolding handle_value response
  handle_value_other d q h = rw h

  handle_values-eq_none :
      (d : Daemon D) (qs : List QueuedValue)
      → (any (λ q. not (is_request q)) qs ≡ true → handle_values dbl d qs ≡ none)
        × (any (λ q. not (is_request q)) qs ≡ false → handle_values dbl d qs ≢ none)
  unfolding handle_values
  handle_values-eq_none d [] = ((λ h. cc), (λ h e. cc))
  handle_values-eq_none d (q ∷ qs) = elim (Bool-cases (is_request q)) [
    | inr other ↦ ((λ h. rw (handle_value_other d q other)), (λ h. ground (arith, other)))
    | inl request ↦
        let (d', inner, e) = handle_value_request d q request in
        let (fails, works) = handle_values-eq_none d' qs in
        rw (e, request)
          (
            (λ h. rw (fails h)),
            (λ h. elim (Option-cases (handle_values dbl d' qs)) [
              | inl f ↦ absurd (works h f)
              | inr (r, f) ↦ rw f (λ c. cc)
            ]),
          )
  ]

  -- The loop over the queued values follows a null pointer if and only if one of the values is no
  -- request, whatever the requests before it do.
  pub handle_values-fails :
      (d : Daemon D) (qs : List QueuedValue)
      → (elim (handle_values dbl d qs) [ none ↦ true | some _ ↦ false ])
        ≡ any (λ q. not (is_request q)) qs
  handle_values-fails d qs =
      let (fails, works) = handle_values-eq_none d qs in
      elim (Bool-cases (any (λ q. not (is_request q)) qs)) [
        | inl bad ↦ rw (bad, fails bad)
        | inr good ↦ elim (Option-cases (handle_values dbl d qs)) [
          | inl f ↦ absurd (works good f)
          | inr (r, f) ↦ rw (good, f)
        ]
      ]

  -- A request to enable the stream of a device, from a client that does not follow the device of the
  -- serving socket: the client follows the named device then, and no other answer changes.
  pub answer_enable_follows :
      (d : Daemon D) (q : QueuedValue) (device : Value)
      → stream_enabled d.streams q.served (serving_device d.server q.serving_id) ≡ false
      → (j : ℕ) (other : Text)
      → stream_enabled (answer_enable d q (some device)).0.streams j other
        ≡ (q.served == j && str_eq (content device) other || stream_enabled d.streams j other)
  unfolding answer_enable
  answer_enable_follows d q device off j other =
      rw off (stream_enabled-enable d.streams q.served j (content device) other)
