-- ===== src/Client/Laws.antt =====
-- The connection and the loop of client/src/Client.cpp and client/src/MDClient.cpp.
use macdetect.Base.{
  ℕ, zero, suc, ◌+◌, ◌≤◌, ◌<◌, Bool, true, false, none, some, ◌≡◌, ◌⊎◌, Bool-cases, Option-cases,
  inl, inr, refl, sym, arith,
}
use macdetect.Value.{Value}
use macdetect.Client.{Client, connected, disconnect, connect, Reception, receive_from, receive}

-- Whatever state a client is in, after `connect` it has the new socket, if there is one. So
-- `connected` is true also when the connection was refused and `connect` returned false. A later
-- `disconnect` closes it.
pub connect_refused :
    (c : Client) (fd : ℕ)
    → ((connect (some fd) false c).1 ≡ false)
      × (connected (connect (some fd) false c).0 ≡ true)
      × (connected (disconnect (connect (some fd) false c).0).0 ≡ false)
unfolding connect connected disconnect
connect_refused c fd = (refl, refl, refl)

-- A call that gives neither a value nor a disconnection.
abbrev pub IsIdle : Reception → Type 0
IsIdle r = (r.value ≡ none) × (r.disconnected ≡ false)

-- A call that ends the loop.
abbrev pub Ends : Reception → Type 0
Ends r = (r.disconnected ≡ true) ⊎ ((v : Value) × (r.disconnected ≡ false) × (r.value ≡ some v))

receive_from-end :
    (f i : ℕ) (calls : ℕ → Reception) (blocks : Bool)
    → Ends (calls i)
    → receive_from (suc f) calls blocks i ≡ some ((calls i).value, (calls i).disconnected, i + 1)
unfolding receive_from
receive_from-end f i calls blocks (inl gone) = rw gone
receive_from-end f i calls blocks (inr (v, stays, given)) = rw (stays, given)

-- `n` is the first call that ends the loop.
receive_from_lem :
    (k f i n : ℕ) (calls : ℕ → Reception)
    → k < f
    → n ≡ i + k
    → ((j : ℕ) → i ≤ j → j < n → IsIdle (calls j))
    → Ends (calls n)
    → receive_from f calls true i ≡ some ((calls n).value, (calls n).disconnected, n + 1)
unfolding receive_from
receive_from_lem k zero i n calls h e idle ends = absurd (omega arith)
receive_from_lem zero (suc f) i n calls h e idle ends =
    let here : n ≡ i = omega arith in rw here (receive_from-end f i calls true (rw (sym here) ends))
receive_from_lem (suc k) (suc f) i n calls h e idle ends =
    let (no_value, still) = idle i (omega arith) (omega arith) in
    rw (still, no_value)
      (receive_from_lem k f (i + 1) n calls (omega arith) (omega arith)
        (λ j l u. idle j (omega arith) u) ends)

receive_from_once :
    (f i : ℕ) (calls : ℕ → Reception)
    → 0 < f
    → receive_from f calls false i ≡ some ((calls i).value, (calls i).disconnected, i + 1)
unfolding receive_from
receive_from_once zero i calls h = absurd (omega arith)
receive_from_once (suc f) i calls h = elim (Bool-cases (calls i).disconnected) [
  | inl gone ↦ rw gone
  | inr stays ↦ elim (Option-cases (calls i).value) [
    | inl idle ↦ rw (stays, idle)
    | inr (v, given) ↦ rw (stays, given)
  ]
]

pub receive_once :
    (f : ℕ) (calls : ℕ → Reception)
    → 0 < f
    → receive f calls false ≡ some ((calls 0).value, (calls 0).disconnected, 1)
unfolding receive
receive_once f calls h = receive_from_once f 0 calls h

-- `receive` of a blocking client: the first call that gives a value or ends the connection gives the
-- result, whatever fuel there is for that many calls. A client that does not block makes one call,
-- and has the result of it.
pub receive_lem :
    (f n : ℕ) (calls : ℕ → Reception)
    → n < f
    → ((j : ℕ) → j < n → IsIdle (calls j))
    → Ends (calls n)
    → (receive f calls true ≡ some ((calls n).value, (calls n).disconnected, n + 1))
      × (receive f calls false ≡ some ((calls 0).value, (calls 0).disconnected, 1))
unfolding receive receive_from
receive_lem f n calls h idle ends = (
  receive_from_lem n f 0 n calls h (omega arith) (λ j l u. idle j u) ends,
  receive_from_once f 0 calls (omega arith),
)
