-- ===== src/Server/Ids.antt =====
-- The numbers of the serving sockets in macdetectd/src/Server.cpp.
use macdetect.Base.{
  ℕ, zero, suc, ◌+◌, ◌≤◌, ◌<◌, Bool, true, false, not, ◌&&◌, ◌||◌, List, [], ◌∷◌, ◌++◌, Option,
  none, some, Text, str_eq, str_eq_iff, ◌≡◌, ◌==◌, leb, refl, any, Bool-cases, Option-cases, inl,
  inr, arith,
}
use macdetect.Server.{
  stopped, Serving, Server, id_bound, free_id_from, free_serving_id, serving_by_id, serve,
}

abbrev pub uses : ℕ → List Serving → Bool
uses id vs = any (λ s. s.id == id) vs

uses_below : (id : ℕ) (vs : List Serving) → uses id vs ≡ true → id < id_bound vs
uses_below id [] h = ground arith
uses_below id (v ∷ vs) h = ground (arith, uses_below id vs)

-- The search from `id` on ends at a number that is free, and every number that it passed is in use.
free_id_from_lem :
    (f id : ℕ) (vs : List Serving)
    → id ≤ id_bound vs
    → id_bound vs < id + f
    → (r : ℕ) × (free_id_from f id vs ≡ some r)
      × (id ≤ r)
      × (uses r vs ≡ false)
      × ((j : ℕ) → id ≤ j → j < r → uses j vs ≡ true)
unfolding free_id_from
free_id_from_lem zero id vs l h = absurd (omega arith)
free_id_from_lem (suc f) id vs l h = elim (Bool-cases (uses id vs)) [
  | inr free ↦ (id, rw free, omega arith, free, λ j a b. absurd (omega arith))
  | inl used ↦
      let (r, e, le, free, all_used) =
        free_id_from_lem f (id + 1) vs (omega (arith, uses_below id vs used)) (omega arith) in
      (
        r,
        rw used e,
        omega arith,
        free,
        λ j a b. elim (Bool-cases (j == id)) [
          | inl same ↦ let e : j ≡ id = ground arith in rw e used
          | inr later ↦ all_used j (ground arith) b
        ],
      )
]

-- `freeServingID` always ends, with the least number that no serving socket has.
pub free_serving_id_lem :
    (vs : List Serving)
    → (r : ℕ) × (free_serving_id vs ≡ some r)
      × (uses r vs ≡ false)
      × ((j : ℕ) → j < r → uses j vs ≡ true)
unfolding free_serving_id
free_serving_id_lem vs =
    let (r, e, le, free, all_used) =
      free_id_from_lem (suc (id_bound vs)) 0 vs (omega arith) (omega arith) in
    (r, e, free, λ j b. all_used j (omega arith) b)

abbrev pub serves : Text → ℕ → List Serving → Bool
serves name port vs = any (λ v. str_eq v.device_name name && v.port == port) vs

-- No two serving sockets have the same number, nor the same device and port.
abbrev pub Distinct : List Serving → Type 0
Distinct [] = Unit {0}
Distinct (v ∷ vs) = (uses v.id vs ≡ false) × (serves v.device_name v.port vs ≡ false) × Distinct vs

pub any-append {ℓ} :
    {A : Type ℓ} (p : A → Bool) (xs ys : List A) → any p (xs ++ ys) ≡ any p xs || any p ys
any-append p [] ys = refl
any-append p (x ∷ xs) ys = ground (arith, any-append p xs ys)

Distinct-concat :
    (vs : List Serving) (v : Serving)
    → Distinct vs
    → uses v.id vs ≡ false
    → serves v.device_name v.port vs ≡ false
    → Distinct (vs ++ v ∷ [])
Distinct-concat [] v d u s = (refl, refl, tt)
Distinct-concat (w ∷ vs) v d u s = ground (
  arith,
  any-append (λ (x : Serving). x.id == w.id) vs (v ∷ []),
  any-append (λ (x : Serving). str_eq x.device_name w.device_name && x.port == w.port) vs (v ∷ []),
  Distinct-concat vs v d.2,
  str_eq_iff v.device_name w.device_name,
  str_eq_iff w.device_name v.device_name,
)

abbrev pub new_serving : ℕ → ℕ → Text → ℕ → Serving
new_serving id fd name port = record {
  status = stopped;
  id = id;
  socket = fd;
  device_name = name;
  port = port;
}

-- The branches of `serve`: nothing is done for a device and port that are served already, without a
-- socket, or where `bind` fails; otherwise a stopped entry with a free number is put at the end.
pub serve-cases {κ} :
    (P : Server × Bool → Type κ) (fd : Option ℕ) (bound : Bool) (s : Server) (name : Text)
    (port : ℕ)
    → P (s, false)
    → ((f id : ℕ)
        → uses id s.servings ≡ false
        → serves name port s.servings ≡ false
        → P (record s { servings = s.servings ++ (new_serving id f name port ∷ []) }, true))
    → P (serve fd bound s name port)
unfolding serve
serve-cases P fd bound s name port same new = elim (Bool-cases (serves name port s.servings)) [
  | inl there ↦ rw there same
  | inr fresh ↦ elim (Option-cases fd) [
    | inl e ↦ rw (fresh, e) same
    | inr (f, e) ↦ elim (Bool-cases bound) [
      | inr refused ↦ rw (fresh, e, refused) same
      | inl ok ↦
          let (id, k, free, _) = free_serving_id_lem s.servings in
          rw (fresh, e, ok, k) (new f id free fresh)
    ]
  ]
]

-- `serve` keeps the numbers of the serving sockets apart, and the pairs of a device and a port,
-- whatever `socket` and `bind` answer.
pub serve-Distinct :
    (fd : Option ℕ) (bound : Bool) (s : Server) (name : Text) (port : ℕ)
    → Distinct s.servings
    → Distinct (serve fd bound s name port).0.servings
serve-Distinct fd bound s name port d =
    serve-cases (λ r. Distinct r.0.servings) fd bound s name port d
      λ f id free fresh. Distinct-concat s.servings (new_serving id f name port) d free fresh

-- `serve` works exactly when the device and port are not served yet, there is a socket, and `bind`
-- works.
pub serve-eq_true :
    (fd : Option ℕ) (bound : Bool) (s : Server) (name : Text) (port : ℕ)
    → (serve fd bound s name port).1
      ≡ (elim fd [ none ↦ false | some _ ↦ bound && not (serves name port s.servings) ])
unfolding serve
serve-eq_true fd bound s name port =
    let (id, k, free, _) = free_serving_id_lem s.servings in ground (arith, k)

-- `servingByID` finds each serving socket by its number, if no two have the same number, nor the same
-- device and port.
pub serving_by_id_lem :
    (xs : List Serving) (v : Serving) (ys : List Serving)
    → Distinct (xs ++ v ∷ ys)
    → serving_by_id (xs ++ v ∷ ys) v.id ≡ some v
unfolding serving_by_id
serving_by_id_lem [] v ys d = ground arith
serving_by_id_lem (x ∷ xs) v ys d =
    ground
      (arith, any-append (λ (w : Serving). w.id == x.id) xs (v ∷ ys), serving_by_id_lem xs v ys d.2)

-- `freeServingID` always ends. Its number is in use by no serving socket, and every smaller number
-- is in use.
pub free_serving_id_least :
    (vs : List Serving) (j : ℕ)
    → (r : ℕ) × (free_serving_id vs ≡ some r)
      × (uses r vs ≡ false)
      × ((leb r j || uses j vs) ≡ true)
free_serving_id_least vs j =
    let (r, e, free, used) = free_serving_id_lem vs in
    (
      r,
      e,
      free,
      elim (Bool-cases (leb r j)) [
        | inl above ↦ rw above
        | inr below ↦ rw (below, used j (ground arith))
      ],
    )
