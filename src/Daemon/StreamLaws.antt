-- ===== src/Daemon/StreamLaws.antt =====
-- What the operations on streams of macdetectd/src/Daemon.cpp do to the question whether a client
-- follows a device.
use macdetect.Base.{
  ℕ, zero, suc, ◌≤◌, Bool, true, false, not, ◌&&◌, ◌||◌, List, [], ◌∷◌, ◌++◌, Text, str_eq,
  str_eq_iff, ◌==◌, any, map, take_first-cases, ◌≡◌, refl, ap, ap₂, inl, inr, length, reject,
  reject-All, reject-middle, select-middle, length-middle, select, select_none, Bool-cases, arith,
}
use macdetect.Daemon.Streams.{is_stream, stream_enabled, enable_stream, erase_streams}
use macdetect.Event.{device_removed}
use macdetect.Daemon.Cycle.{drop_streams}
use macdetect.Daemon.Notices.{of_device, stream_disabled, end_streams}
use macdetect.Daemon.{Stream}

any-append : (p : Stream → Bool) (xs ys : List Stream) → any p (xs ++ ys) ≡ any p xs || any p ys
any-append p [] ys = refl
any-append p (x ∷ xs) ys = ground (arith, any-append p xs ys)

-- After `enableStream` the client follows the device, and no other answer changes.
pub stream_enabled-enable :
    (streams : List Stream) (h j : ℕ) (name other : Text)
    → stream_enabled (enable_stream streams h name) j other
      ≡ (h == j && str_eq name other || stream_enabled streams j other)
unfolding stream_enabled enable_stream
stream_enabled-enable streams h j name other = elim (Bool-cases (any (is_stream h name) streams)) [
  | inl old ↦ rw old (elim (Bool-cases (h == j && str_eq name other)) [
    | inr not_this ↦ rw not_this
    | inl this ↦
        let same_client : h ≡ j = ground (arith, this) in
        let same_device : name ≡ other = ground (arith, this, str_eq_iff name other) in
        rw (this, ← same_client, ← same_device) old
  ])
  | inr new ↦
      rw
        (
          new,
          any-append (is_stream j other) streams (record { served = h; device_name = name } ∷ []),
        )
        (ground arith)
]

-- No client follows a device twice.
abbrev pub Single : List Stream → Type 0
Single [] = Unit {0}
Single (s ∷ ss) = (stream_enabled ss s.served s.device_name ≡ false) × Single ss

-- The loops that erase streams erase exactly those of the kind, in their order, and keep the others in
-- theirs. The number of the streams, or more, is fuel enough.
pub erase_streams_lem :
    (p : Stream → Bool) (f : ℕ) (streams : List Stream)
    → length streams ≤ f
    → erase_streams p f streams ≡ (reject p streams, select p streams)
unfolding erase_streams
erase_streams_lem p zero [] h = refl
erase_streams_lem p zero (s ∷ streams) h = absurd (omega arith)
erase_streams_lem p (suc f) streams h = elim (take_first-cases p streams) [
  | inl (e, none_left) ↦
      rw (e, erase_streams, reject-All p streams none_left, select_none p streams none_left)
  | inr s ↦
      let fewer = length-middle s.before s.found s.behind streams s.splits in
      let later = erase_streams_lem p f (s.before ++ s.behind) (omega arith) in
      let kept = reject-middle p s.before s.found s.behind streams s.splits s.passes in
      let erased =
        select-middle p s.before s.found s.behind streams s.splits s.none_before s.passes in
      rw (s.taken, erase_streams, later) (ap₂ (λ a b. (a, b)) kept erased)
]

stream_enabled-reject :
    (p : Stream → Bool) (streams : List Stream) (h : ℕ) (name : Text)
    → ((s : Stream) → is_stream h name s ≡ true → p s ≡ false)
    → stream_enabled (reject p streams) h name ≡ stream_enabled streams h name
unfolding stream_enabled
stream_enabled-reject p [] h name k = refl
stream_enabled-reject p (s ∷ ss) h name k = ground (arith, k s, stream_enabled-reject p ss h name k)

stream_enabled_gone :
    (p : Stream → Bool) (streams : List Stream) (h : ℕ) (name : Text)
    → ((s : Stream) → is_stream h name s ≡ true → p s ≡ true)
    → stream_enabled (reject p streams) h name ≡ false
unfolding stream_enabled
stream_enabled_gone p [] h name k = refl
stream_enabled_gone p (s ∷ ss) h name k = ground (arith, k s, stream_enabled_gone p ss h name k)

-- After the loop for the clients that are gone, no one of them follows a device, and what the others
-- follow is as it was.
pub stream_enabled-drop_streams :
    (streams : List Stream) (gone : List ℕ) (h : ℕ) (name : Text)
    → stream_enabled (drop_streams streams gone) h name
      ≡ (stream_enabled streams h name && not (any (λ g. g == h) gone))
unfolding drop_streams
stream_enabled-drop_streams streams [] h name = ground arith
stream_enabled-drop_streams streams (g ∷ gs) h name =
    let left = reject (λ (s : Stream). s.served == g) streams in
    let erased =
      ap (λ r. r.0)
        (erase_streams_lem (λ s. s.served == g) (length streams) streams (omega arith)) in
    rw erased (elim (Bool-cases (g == h)) [
      | inl same ↦
          rw
            (
              stream_enabled-drop_streams left gs h name,
              stream_enabled_gone (λ s. s.served == g) streams h name
                  (λ s e. ground (arith, e, same)),
              same,
            )
            (ground arith)
      | inr other ↦ rw (
        stream_enabled-drop_streams left gs h name,
        stream_enabled-reject (λ s. s.served == g) streams h name (λ s e. ground (arith, e, other)),
        other,
      )
    ])

-- When a device is removed, every stream of it ends, its clients are told so, once for each stream
-- and in the order of the streams, and the other streams stay.
pub end_streams_removed :
    (name : Text) (streams : List Stream)
    → end_streams device_removed name streams ≡ (
      reject (of_device name) streams,
      map (λ s. (s.served, stream_disabled name)) (select (of_device name) streams),
    )
unfolding end_streams
end_streams_removed name streams =
    rw (erase_streams_lem (of_device name) (length streams) streams (omega arith))
