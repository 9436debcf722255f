-- ===== src/Config/Portions.antt =====
-- `Config::list` of utils/src/Config.cpp.
use macdetect.Base.{
  ℕ, Bool, true, false, not, ◌&&◌, List, [], ◌∷◌, ◌++◌, none, some, Text, ◌==◌, trim_end,
  trim_start, ◌≡◌, refl, ap, ◌∙◌, arith, all, All,
}
use macdetect.Config.{
  Sections, is_blank, is_quote, portions, portion, all_portions, stored_value, value, list,
}

-- A character that `list` takes as it is.
abbrev pub is_plain : ℕ → Bool
is_plain c = not (is_blank c) && not (is_quote c) && not (c == b',')

-- A name that is not empty, of plain characters.
abbrev pub IsName : Text → Type 0
IsName [] = ⊥
IsName (c ∷ cs) = all is_plain (c ∷ cs) ≡ true

-- The names with commas between them.
abbrev pub join : Text → List Text → Text
join n [] = n
join n (m ∷ ms) = n ++ b',' ∷ join m ms

portions-plain : (n : Text) → all is_plain n ≡ true → portions none n ≡ n ∷ []
unfolding portions
portions-plain [] h = refl
portions-plain (c ∷ cs) h = ground (arith, portions-plain cs)

portions-comma :
    (n r : Text) → all is_plain n ≡ true → portions none (n ++ b',' ∷ r) ≡ n ∷ portions none r
unfolding portions
portions-comma [] r h = refl
portions-comma (c ∷ cs) r h = ground (arith, portions-comma cs r)

trim_end-plain : (n : Text) → all is_plain n ≡ true → trim_end is_blank n ≡ n
unfolding trim_end
trim_end-plain [] h = refl
trim_end-plain (c ∷ []) h = ground (arith, h)
trim_end-plain (c ∷ d ∷ ds) h = rw (trim_end-plain (d ∷ ds) (ground (arith, h)))

portion_plain : (n : Text) → IsName n → portion n ≡ some n
unfolding portion trim_start
portion_plain [] h = absurd h
portion_plain (c ∷ cs) h = rw (trim_end-plain (c ∷ cs) h, portion) (ground (arith, h))

list_of_value :
    (m : Sections) (section term v : Text)
    → value m section term [] false ≡ v
    → list m section term ≡ all_portions (portions none v)
unfolding list
list_of_value m section term v e = ap (λ w. all_portions (portions none w)) e

value_stored :
    (m : Sections) (section term v : Text)
    → stored_value m section term ≡ some v
    → value m section term [] false ≡ v
unfolding value
value_stored m section term v e = rw (e, value)

value_missing :
    (m : Sections) (section term : Text)
    → stored_value m section term ≡ none
    → value m section term [] false ≡ []
unfolding value
value_missing m section term e = rw (e, value)

name-plain : (n : Text) → IsName n → all is_plain n ≡ true
name-plain [] h = absurd h
name-plain (c ∷ cs) h = h

portions-join :
    (n : Text) (ns : List Text)
    → IsName n
    → All IsName ns
    → all_portions (portions none (join n ns)) ≡ some (n ∷ ns)
unfolding all_portions
portions-join n [] h hs = rw (portions-plain n (name-plain n h), portion_plain n h)
portions-join n (m ∷ ms) h hs =
    rw (
      portions-comma n (join m ms) (name-plain n h),
      portion_plain n h,
      portions-join m ms hs.0 hs.1,
    )

-- `list` reads the names of a value back that has them with commas between them, if no name is empty
-- and none has a blank, a quote or a comma in it.
pub list-join :
    (m : Sections) (section term n : Text) (ns : List Text)
    → stored_value m section term ≡ some (join n ns)
    → IsName n
    → All IsName ns
    → list m section term ≡ some (n ∷ ns)
list-join m section term n ns e h hs =
    list_of_value m section term (join n ns) (value_stored m section term (join n ns) e)
    ∙ portions-join n ns h hs

-- `list` throws where the term is not there: the empty default value is a blank portion.
pub list_missing :
    (m : Sections) (section term : Text)
    → stored_value m section term ≡ none
    → list m section term ≡ none
unfolding portions all_portions portion trim_end
list_missing m section term e = list_of_value m section term [] (value_missing m section term e)
