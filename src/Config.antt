-- ===== src/Config.antt =====
-- utils/src/Config.cpp: configuration files. The reading of the file itself is left out; its text is
-- an argument. `none` is an exception.
pub mod Lookup
pub mod Portions
mod Tests
use macdetect.Base.{
  ℕ, ◌-◌, Bool, true, false, ◌&&◌, ◌||◌, List, [], ◌∷◌, Option, none, some, Text, text, str_eq,
  ◌==◌, length, take, drop, trim_end, trim_start, if◌then◌else◌, ◌>>=◌,
}
use macdetect.Base.Dict.{lookup, insert}

-- A map from sections to maps from terms to values.
abbrev pub Sections : Type 0
Sections = List (Text × List (Text × Text))

abbrev pub is_blank : ℕ → Bool
is_blank c = c == b' ' || c == b'\n' || c == b'\r' || c == b'\t'

abbrev pub is_quote : ℕ → Bool
is_quote c = c == b'"' || c == b'\''

abbrev pub push_front : ℕ → List Text → List Text
push_front c [] = (c ∷ []) ∷ []
push_front c (l ∷ ls) = (c ∷ l) ∷ ls

-- The lines that `std::getline` gives: one that ends with the text is there if it is not empty.
unfoldable pub raw_lines : Text → List Text
raw_lines [] = []
raw_lines (c ∷ cs) = if c == b'\n' then [] ∷ raw_lines cs else push_front c (raw_lines cs)

unfoldable pub trim_lines : List Text → List Text
trim_lines [] = []
trim_lines (l ∷ ls) = trim_end is_blank l ∷ trim_lines ls

-- `splitString`
unfoldable pub split_string : Text → List Text
unfolding raw_lines trim_lines
split_string content = trim_lines (raw_lines content)

-- `cStringDelimiter` behind a character; `none` is `'\0'`.
abbrev pub delimiter : Option ℕ → ℕ → Option ℕ
delimiter none c = if is_quote c then some c else none
delimiter (some q) c = if is_quote c && q == c then none else some q

abbrev pub outside : Option ℕ → Bool
outside none = true
outside (some q) = false

-- A line up to the first `#` that is not quoted.
unfoldable pub uncomment : Option ℕ → Text → Text
uncomment q [] = []
uncomment q (c ∷ cs) =
    let rest = c ∷ uncomment (delimiter q c) cs in if c == b'#' && outside q then [] else rest

-- `filterLines`
unfoldable pub filter_lines : List Text → List Text
unfolding uncomment
filter_lines [] = []
filter_lines (l ∷ ls) = elim (trim_end is_blank (uncomment none l)) [
  | [] ↦ filter_lines ls
  | c ∷ cs ↦ (c ∷ cs) ∷ filter_lines ls
]

abbrev pub ends_with : ℕ → Text → Bool
ends_with q [] = false
ends_with q (c ∷ []) = c == q
ends_with q (c ∷ d ∷ cs) = ends_with q (d ∷ cs)

abbrev pub starts_with : ℕ → Text → Bool
starts_with q [] = false
starts_with q (c ∷ cs) = c == q

-- `s.substr(1, s.length() - 2)`, of a text that is not empty.
abbrev pub inner : Text → Text
inner s = take (length s - 2) (drop 1 s)

-- The texts in front of the first `=` and behind it; where there is none, both are the whole line,
-- as `npos + 1` is 0.
unfoldable pub find_assign : Text → Option (Text × Text)
find_assign [] = none
find_assign (c ∷ cs) =
    let rest = find_assign cs >>= λ r. some (c ∷ r.0, r.1) in
    if c == b'=' then some ([], cs) else rest

unfoldable pub assignment : Text → Text × Text
unfolding find_assign
assignment line = elim (find_assign line) [ some r ↦ r | none ↦ (line, line) ]

unfoldable pub section_of : Sections → Text → List (Text × Text)
section_of m section = elim (lookup section m) [ some terms ↦ terms | none ↦ [] ]

abbrev pub is_header : Text → Bool
is_header line = starts_with b'[' line && ends_with b']' line

-- The loop of `parseLines`, with the map and the section so far.
unfoldable pub parse_from : Sections → Text → List Text → Option Sections
parse_from m section [] = some m
parse_from m section ([] ∷ ls) = none
parse_from m section ((c ∷ cs) ∷ ls) =
    let (term, value) = assignment (c ∷ cs) in
    let as_header = parse_from m (inner (c ∷ cs)) ls in
    let as_term =
      parse_from (insert section (insert term value (section_of m section)) m) section ls in
    if is_header (c ∷ cs) then as_header else as_term

-- `parseLines`
unfoldable pub parse_lines : List Text → Option Sections
parse_lines ls = parse_from [] (text "global") ls

-- `loadFromString`
unfoldable pub load_from_string : Text → Option Sections
load_from_string content = parse_lines (filter_lines (split_string content))

-- The value of a term in a section, if there is one.
unfoldable pub stored_value : Sections → Text → Text → Option Text
stored_value m section term = lookup section m >>= λ terms. lookup term terms

abbrev pub is_quoted : ℕ → Text → Bool
is_quoted q s = starts_with q s && ends_with q s

-- `value(strSection, strTerm, strDefault, bCutoffQuotes)`
unfoldable pub value : Sections → Text → Text → Text → Bool → Text
value m section term default_value cutoff_quotes = elim (stored_value m section term) [
  | none ↦ default_value
  | some v ↦ if cutoff_quotes && is_quoted b'"' v then inner v else v
]

-- The texts between the commas that are not quoted.
unfoldable pub portions : Option ℕ → Text → List Text
portions q [] = [] ∷ []
portions q (c ∷ cs) =
    let last_portion = [] ∷ portions q cs in
    let longer = push_front c (portions (delimiter q c) cs) in
    if c == b',' && outside q then last_portion else longer

-- A portion without the blanks around it and without its quotes; `substr(npos)` throws for one that
-- is blank.
unfoldable pub portion : Text → Option Text
portion s = elim (trim_end is_blank s) [
  | [] ↦ none
  | c ∷ cs ↦
      let p = trim_start is_blank (c ∷ cs) in
      some (if is_quoted b'"' p || is_quoted b'\'' p then inner p else p)
]

unfoldable pub all_portions : List Text → Option (List Text)
unfolding portion
all_portions [] = some []
all_portions (s ∷ ss) = do p ← portion s; ps ← all_portions ss; some (p ∷ ps)

-- `list(strSection, strTerm)`
unfoldable pub list : Sections → Text → Text → Option (List Text)
unfolding value portions all_portions
list m section term = all_portions (portions none (value m section term [] false))
