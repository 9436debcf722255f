-- ===== src/Config/Lookup.antt =====
-- What `Config::parseLines` of utils/src/Config.cpp stores.
use macdetect.Base.{
  ◌&&◌, List, [], ◌∷◌, Option, none, some, Text, text, str_eq, str_eq_iff, ◌≡◌, refl, ap, ◌∙◌,
  if◌then◌else◌, Bool-cases, Option-cases, inl, inr, arith, ◌>>=◌,
}
use macdetect.Base.Dict.{lookup, insert, lookup-insert}
use macdetect.Config.{
  Sections, assignment, is_header, inner, section_of, parse_from, parse_lines, stored_value,
}

-- The value that the last line for a term of a section gives it, from the section in which the lines
-- begin.
unfoldable pub last_assigned : Text → List Text → Text → Text → Option Text
last_assigned here [] section term = none
last_assigned here (l ∷ ls) section term =
    let next = if is_header l then inner l else here in
    let this =
      if is_header l
      then none
      else if str_eq here section && str_eq (assignment l).0 term
      then some (assignment l).1
      else none in
    elim (last_assigned next ls section term) [ some v ↦ some v | none ↦ this ]

section_lookup :
    (m : Sections) (here term : Text)
    → lookup term (section_of m here) ≡ (lookup here m >>= λ ts. lookup term ts)
unfolding section_of lookup
section_lookup m here term = elim (Option-cases (lookup here m)) [
  | inl n ↦ rw (n, section_of)
  | inr (w, n) ↦ rw (n, section_of)
]

stored_value-insert :
    (m : Sections) (here t v section term : Text)
    → stored_value (insert here (insert t v (section_of m here)) m) section term
      ≡ (if str_eq here section && str_eq t term then some v else stored_value m section term)
unfolding stored_value
stored_value-insert m here t v section term =
    let terms = insert t v (section_of m here) in
    ap (λ o. o >>= λ ts. lookup term ts) (lookup-insert here section terms m)
    ∙ (elim (Bool-cases (str_eq here section)) [
      | inr other ↦ rw other
      | inl same ↦
          let e : here ≡ section = (str_eq_iff here section).0 same in
          rw same (
            lookup-insert t term v (section_of m here)
            ∙ ap (λ o. if str_eq t term then some v else o)
                (section_lookup m here term ∙ ap (λ s. lookup s m >>= λ ts. lookup term ts) e))
    ])

parse_from_lem :
    (ls : List Text) (m m' : Sections) (here section term : Text)
    → parse_from m here ls ≡ some m'
    → stored_value m' section term ≡ elim (last_assigned here ls section term) [
      | some v ↦ some v
      | none ↦ stored_value m section term
    ]
unfolding parse_from last_assigned
parse_from_lem [] m m' here section term e = ground (arith, e)
parse_from_lem ([] ∷ ls) m m' here section term e = ground (arith, e)
parse_from_lem ((c ∷ cs) ∷ ls) m m' here section term e = elim (Bool-cases (is_header (c ∷ cs))) [
  | inl header ↦
      let e' : parse_from m (inner (c ∷ cs)) ls ≡ some m' = rw header at e in
      rw header (parse_from_lem ls m m' (inner (c ∷ cs)) section term e' ∙ ground (arith, header))
  | inr line ↦
      let (t, v) = assignment (c ∷ cs) in
      let stored = insert here (insert t v (section_of m here)) m in
      let e' : parse_from stored here ls ≡ some m' = rw line at e in
      rw line (
        parse_from_lem ls stored m' here section term e'
        ∙ ground (arith, line, stored_value-insert m here t v section term))
]

empty_default :
    (section term : Text) (o : Option Text)
    → (elim o [ some v ↦ some v | none ↦ stored_value [] section term ]) ≡ o
unfolding stored_value lookup
empty_default section term none = refl
empty_default section term (some v) = refl

-- Where `parseLines` gives a map, the value of a term in a section is the one of its last line in
-- that section, the lines in front of all sections being in the section `global`.
pub parse_lines_lem :
    (ls : List Text) (m : Sections) (section term : Text)
    → parse_lines ls ≡ some m
    → stored_value m section term ≡ last_assigned (text "global") ls section term
unfolding parse_lines
parse_lines_lem ls m section term e =
    parse_from_lem ls [] m (text "global") section term e
    ∙ empty_default section term (last_assigned (text "global") ls section term)
