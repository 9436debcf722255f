-- ===== src/Arguments/RoundTrip.antt =====
-- `ArgumentParser::parse` of utils/src/ArgumentParser.cpp on a command line that is written out.
use macdetect.Base.{
  ℕ, zero, suc, ◌≤◌, ◌<◌, Bool, true, false, not, ◌&&◌, List, [], ◌∷◌, ◌++◌, map, some, Text, text,
  str_eq, take, ◌==◌, length, length-append, select, if◌then◌else◌, All, ◌≡◌, refl, sym, ap, ◌∙◌,
  append_assoc, append-nil, Bool-cases, inl, inr, arith,
}
use macdetect.Arguments.{
  switch, token, parameter, ArgumentPrototype, Argument, fits_artifact, take_argument, take_fitting,
  take_artifact, parse_from, parse,
}

-- What is written: a switch or a token of a prototype, by its long or its short name, or a
-- parameter.
pub data Item : Type 0 where
  switched_on : ArgumentPrototype → Bool → Item
  given : ArgumentPrototype → Bool → Text → Item
  plain : Text → Item

abbrev pub name_of : ArgumentPrototype → Bool → Text
name_of p is_long = if is_long then p.long_name else p.short_name

abbrev pub dashed : ArgumentPrototype → Bool → Text
dashed p is_long = if is_long then b'-' ∷ b'-' ∷ p.long_name else b'-' ∷ p.short_name

abbrev pub written : Item → List Text
written (switched_on p is_long) = dashed p is_long ∷ []
written (given p is_long v) = dashed p is_long ∷ v ∷ []
written (plain v) = v ∷ []

abbrev pub write_all : List Item → List Text
write_all [] = []
write_all (i ∷ is) = written i ++ write_all is

abbrev pub argument_of : Item → Argument
argument_of (switched_on p is_long) = record {
  key = name_of p is_long;
  value = [];
  argument_type = switch;
}
argument_of (given p is_long v) = record {
  key = name_of p is_long;
  value = v;
  argument_type = token;
}
argument_of (plain v) = record { key = []; value = v; argument_type = parameter }

abbrev pub has_dash : Text → Bool
has_dash v = str_eq (take 1 v) (text "-")

-- No other prototype fits the name, and a short name does not begin with a dash.
abbrev pub IsNamed : List ArgumentPrototype → ArgumentPrototype → Bool → Type 0
IsNamed prototypes p is_long =
    (select (fits_artifact is_long (name_of p is_long)) prototypes ≡ p ∷ [])
    × ((not is_long && has_dash p.short_name) ≡ false)

-- The items that can be read back.
abbrev pub IsWritable : List ArgumentPrototype → Item → Type 0
IsWritable prototypes (switched_on p is_long) =
    IsNamed prototypes p is_long × (p.argument_type ≡ switch)
IsWritable prototypes (given p is_long v) = IsNamed prototypes p is_long × (p.argument_type ≡ token)
IsWritable prototypes (plain v) = has_dash v ≡ false

-- The inner loop sees only the prototypes that fit.
take_all_fitting :
    List ArgumentPrototype → Text → List Argument → List Text → List Argument × List Text
take_all_fitting [] key found rest = (found, rest)
take_all_fitting (p ∷ ps) key found rest =
    take_all_fitting ps key (take_argument p.argument_type key found rest).0
      (take_argument p.argument_type key found rest).1

take_fitting-select :
    (is_long : Bool) (key : Text) (ps : List ArgumentPrototype) (found : List Argument)
    (rest : List Text)
    → take_fitting is_long key ps found rest
      ≡ take_all_fitting (select (fits_artifact is_long key) ps) key found rest
unfolding take_fitting take_all_fitting
take_fitting-select is_long key [] found rest = refl
take_fitting-select is_long key (p ∷ ps) found rest =
    elim (Bool-cases (fits_artifact is_long key p)) [
      | inl fits ↦ rw fits (take_fitting-select is_long key ps _ _)
      | inr other ↦ rw other (take_fitting-select is_long key ps found rest)
    ]

take_artifact-named :
    (prototypes : List ArgumentPrototype) (found : List Argument) (p : ArgumentPrototype)
    (is_long : Bool) (rest : List Text)
    → IsNamed prototypes p is_long
    → take_artifact prototypes found (dashed p is_long) rest
      ≡ take_argument p.argument_type (name_of p is_long) found rest
unfolding take_artifact take_all_fitting text str_eq
take_artifact-named prototypes found p true rest h =
    take_fitting-select true p.long_name prototypes found rest
    ∙ ap (λ ps. take_all_fitting ps p.long_name found rest) h.0
take_artifact-named prototypes found p false rest h = rw h.1 (
    take_fitting-select false p.short_name prototypes found rest
    ∙ ap (λ ps. take_all_fitting ps p.short_name found rest) h.0)

take_artifact-item :
    (prototypes : List ArgumentPrototype) (found : List Argument) (v : Text) (rest : List Text)
    → has_dash v ≡ false
    → take_artifact prototypes found v rest ≡ (found ++ (argument_of (plain v) ∷ []), rest)
unfolding take_artifact text str_eq
take_artifact-item prototypes found [] rest h = refl
take_artifact-item prototypes found (c ∷ cs) rest h =
    let other : c == b'-' ≡ false = ground (arith, h) in rw other

written_some : (i : Item) → 0 < length (written i)
written_some (switched_on p is_long) = omega arith
written_some (given p is_long v) = omega arith
written_some (plain v) = omega arith

next :
    (prototypes : List ArgumentPrototype) (f : ℕ) (found : List Argument) (a : Text)
    (rest : List Text) (r : List Argument × List Text)
    → take_artifact prototypes found a rest ≡ r
    → parse_from (suc f) prototypes found (a ∷ rest) ≡ parse_from f prototypes r.0 r.1
unfolding parse_from
next prototypes f found a rest r e = ap (λ q. parse_from f prototypes q.0 q.1) e

parse_from-write_all :
    (prototypes : List ArgumentPrototype) (is : List Item) (f : ℕ) (found : List Argument)
    → All (IsWritable prototypes) is
    → length (write_all is) ≤ f
    → parse_from f prototypes found (write_all is) ≡ some (found ++ map argument_of is)
unfolding parse_from take_argument
parse_from-write_all prototypes [] f found h enough = ap some (sym (append-nil found))
parse_from-write_all prototypes (i ∷ is) zero found h enough =
    absurd (omega (arith, length-append (written i) (write_all is), written_some i))
parse_from-write_all prototypes (switched_on p is_long ∷ is) (suc f) found h enough =
    let step = take_artifact-named prototypes found p is_long (write_all is) h.0.0 in
    next prototypes f found (dashed p is_long) (write_all is) _
      (step ∙ ap (λ t. take_argument t (name_of p is_long) found (write_all is)) h.0.1)
    ∙ parse_from-write_all prototypes is f (found ++ (argument_of (switched_on p is_long) ∷ [])) h.1
        (omega arith)
    ∙ ap some (append_assoc found _ _)
parse_from-write_all prototypes (given p is_long v ∷ is) (suc f) found h enough =
    let step = take_artifact-named prototypes found p is_long (v ∷ write_all is) h.0.0 in
    next prototypes f found (dashed p is_long) (v ∷ write_all is) _
      (step ∙ ap (λ t. take_argument t (name_of p is_long) found (v ∷ write_all is)) h.0.1)
    ∙ parse_from-write_all prototypes is f (found ++ (argument_of (given p is_long v) ∷ [])) h.1
        (omega arith)
    ∙ ap some (append_assoc found _ _)
parse_from-write_all prototypes (plain v ∷ is) (suc f) found h enough =
    next prototypes f found v (write_all is) _
      (take_artifact-item prototypes found v (write_all is) h.0)
    ∙ parse_from-write_all prototypes is f (found ++ (argument_of (plain v) ∷ [])) h.1 (omega arith)
    ∙ ap some (append_assoc found _ _)

-- The parser reads a command line back into its switches, tokens and parameters, in their order, if
-- each name that is used fits exactly one prototype, of the kind that is meant, no short name begins
-- with a dash, and no parameter does. The values of tokens are free: they may begin with a dash.
pub parse-write_all :
    (prototypes : List ArgumentPrototype) (is : List Item)
    → All (IsWritable prototypes) is
    → parse prototypes [] (write_all is) ≡ some (map argument_of is)
unfolding parse
parse-write_all prototypes is h =
    parse_from-write_all prototypes is (length (write_all is)) [] h (omega arith)
