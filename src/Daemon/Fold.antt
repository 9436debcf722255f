-- ===== src/Daemon/Fold.antt =====
-- What a client makes of the values that macdetectd/src/Daemon.cpp sends to it, whatever it reads in
-- them.
use macdetect.Base.{
  ℕ, List, [], ◌∷◌, ◌++◌, map, ◌==◌, if◌then◌else◌, All, ◌≡◌, refl, Bool-cases, inl, inr, arith,
}
use macdetect.Value.{Value}
use macdetect.Server.{Sent}
use macdetect.Server.Connections.{connections}

-- The values to a client, in their order.
unfoldable pub values_to : ℕ → Sent → List Value
values_to h [] = []
values_to h ((c, v) ∷ sent) = if c == h then v ∷ values_to h sent else values_to h sent

module _ {S : Type 0} (read : S → Value → S) where
  -- The values to a client, in their order.
  unfoldable pub read_all : ℕ → S → Sent → S
  read_all h s [] = s
  read_all h s ((c, v) ∷ sent) = read_all h (if c == h then read s v else s) sent

  -- A client that has got these values.
  unfoldable pub read_values : S → List Value → S
  read_values s [] = s
  read_values s (v ∷ vs) = read_values (read s v) vs

  pub read_all-values_to :
      (h : ℕ) (s : S) (sent : Sent) → read_all h s sent ≡ read_values s (values_to h sent)
  unfolding read_all values_to read_values
  read_all-values_to h s [] = refl
  read_all-values_to h s ((c, v) ∷ sent) = elim (Bool-cases (c == h)) [
    | inl same ↦ rw (read_all, same) (read_all-values_to h (read s v) sent)
    | inr other ↦ rw (read_all, other) (read_all-values_to h s sent)
  ]

  pub read_all-append :
      (h : ℕ) (s : S) (xs ys : Sent) → read_all h s (xs ++ ys) ≡ read_all h (read_all h s xs) ys
  unfolding read_all
  read_all-append h s [] ys = refl
  read_all-append h s ((c, v) ∷ xs) ys = read_all-append h (if c == h then read s v else s) xs ys

  -- A value that the client reads nothing in.
  abbrev pub IsUnread : ℕ × Value → Type 0
  IsUnread x = (s : S) → read s x.1 ≡ s

  pub read_all-IsUnread : (h : ℕ) (s : S) (sent : Sent) → All IsUnread sent → read_all h s sent ≡ s
  unfolding read_all
  read_all-IsUnread h s [] unread = refl
  read_all-IsUnread h s ((c, v) ∷ sent) unread = elim (Bool-cases (c == h)) [
    | inl same ↦ rw (read_all, same, unread.0 s) (read_all-IsUnread h s sent unread.1)
    | inr other ↦ rw (read_all, other) (read_all-IsUnread h s sent unread.1)
  ]

  -- Any number of copies of a value that tells nothing here.
  pub read_copies_quiet :
      (h : ℕ) (s : S) (v : Value) (cs : List (ℕ × ℕ))
      → read s v ≡ s
      → read_all h s (map (λ c. (c.0, v)) cs) ≡ s
  unfolding read_all
  read_copies_quiet h s v [] quiet = refl
  read_copies_quiet h s v ((c, id) ∷ cs) quiet = elim (Bool-cases (c == h)) [
    | inl same ↦ rw (read_all, same, quiet) (read_copies_quiet h s v cs quiet)
    | inr other ↦ rw (read_all, other) (read_copies_quiet h s v cs quiet)
  ]

  read_copies_none :
      (h : ℕ) (s : S) (v : Value) (cs : List (ℕ × ℕ))
      → connections h cs ≡ 0
      → read_all h s (map (λ c. (c.0, v)) cs) ≡ s
  unfolding read_all connections
  read_copies_none h s v [] none_left = refl
  read_copies_none h s v ((c, id) ∷ cs) none_left = elim (Bool-cases (c == h)) [
    | inl same ↦ absurd (ground (arith, same, none_left))
    | inr other ↦
        rw (read_all, other) (read_copies_none h s v cs (ground (arith, other, none_left)))
  ]

  -- One copy.
  pub read_copies_once :
      (h : ℕ) (s : S) (v : Value) (cs : List (ℕ × ℕ))
      → connections h cs ≡ 1
      → read_all h s (map (λ c. (c.0, v)) cs) ≡ read s v
  unfolding read_all connections
  read_copies_once h s v [] one = absurd (omega (arith, one))
  read_copies_once h s v ((c, id) ∷ cs) one = elim (Bool-cases (c == h)) [
    | inl same ↦
        rw (read_all, same) (read_copies_none h (read s v) v cs (ground (arith, same, one)))
    | inr other ↦ rw (read_all, other) (read_copies_once h s v cs (ground (arith, other, one)))
  ]

pub copies-IsUnread :
    {S A : Type 0} (read : S → Value → S) (to : A → ℕ) (v : Value) (xs : List A)
    → IsUnread read (0, v)
    → All (IsUnread read) (map (λ x. (to x, v)) xs)
copies-IsUnread read to v [] h = tt
copies-IsUnread read to v (x ∷ xs) h = (h, copies-IsUnread read to v xs h)
