-- ===== src/Arguments.antt =====
-- utils/src/ArgumentParser.cpp: the command line.
pub mod RoundTrip
mod Tests
use macdetect.Base.{
  ℕ, zero, suc, Bool, true, false, not, ◌&&◌, ◌||◌, List, [], ◌∷◌, ◌++◌, Option, none, some, Text,
  text, str_eq, take, drop, length, if◌then◌else◌,
}

pub data ArgumentType : Type 0 where
  switch token parameter : ArgumentType

pub record ArgumentPrototype : Type 0 where
  pub short_name : Text
  pub long_name : Text
  pub argument_type : ArgumentType

pub record Argument : Type 0 where
  pub key : Text
  pub value : Text
  pub argument_type : ArgumentType

-- The test of the inner loop of `parse`.
abbrev pub fits_artifact : Bool → Text → ArgumentPrototype → Bool
fits_artifact is_long key p = if is_long then str_eq p.long_name key else str_eq p.short_name key

-- The body of the inner loop: the arguments, and the artifacts behind the ones that are used.
unfoldable pub take_argument :
    ArgumentType → Text → List Argument → List Text → List Argument × List Text
take_argument switch key found rest =
    (found ++ (record { key = key; value = []; argument_type = switch } ∷ []), rest)
take_argument token key found [] = (found, [])
take_argument token key found (v ∷ rest) =
    (found ++ (record { key = key; value = v; argument_type = token } ∷ []), rest)
take_argument parameter key found rest = (found, rest)

-- The inner loop. It goes on behind a prototype that fits, so `unI` may move more than once.
unfoldable pub take_fitting :
    Bool → Text → List ArgumentPrototype → List Argument → List Text → List Argument × List Text
unfolding take_argument
take_fitting is_long key [] found rest = (found, rest)
take_fitting is_long key (p ∷ ps) found rest =
    let (found', rest') =
      if fits_artifact is_long key p
      then take_argument p.argument_type key found rest
      else (found, rest) in
    take_fitting is_long key ps found' rest'

-- The body of the outer loop.
unfoldable pub take_artifact :
    List ArgumentPrototype → List Argument → Text → List Text → List Argument × List Text
take_artifact prototypes found artifact rest =
    if str_eq (take 2 artifact) (text "--")
    then take_fitting true (drop 2 artifact) prototypes found rest
    else if str_eq (take 1 artifact) (text "-")
    then take_fitting false (drop 1 artifact) prototypes found rest
    else (found ++ (record { key = []; value = artifact; argument_type = parameter } ∷ []), rest)

-- The outer loop. A round uses an artifact or more, so their number is fuel enough.
unfoldable pub parse_from :
    ℕ → List ArgumentPrototype → List Argument → List Text → Option (List Argument)
parse_from f prototypes found [] = some found
parse_from zero prototypes found (a ∷ rest) = none
parse_from (suc f) prototypes found (a ∷ rest) =
    let (found', rest') = take_artifact prototypes found a rest in
    parse_from f prototypes found' rest'

-- `parse`, without the name of the program.
unfoldable pub parse : List ArgumentPrototype → List Argument → List Text → Option (List Argument)
unfolding parse_from
parse prototypes found artifacts = parse_from (length artifacts) prototypes found artifacts

-- `keyFitsArgument`: the first prototype with this name decides.
unfoldable pub key_fits_argument : List ArgumentPrototype → Text → Argument → Bool
key_fits_argument [] key a = false
key_fits_argument (p ∷ ps) key a =
    if str_eq p.short_name key || str_eq p.long_name key
    then str_eq a.key p.short_name || str_eq a.key p.long_name
    else key_fits_argument ps key a

abbrev pub is_switch : ArgumentType → Bool
is_switch switch = true
is_switch token = false
is_switch parameter = false

abbrev pub is_token : ArgumentType → Bool
is_token switch = false
is_token token = true
is_token parameter = false

unfoldable pub switched : List ArgumentPrototype → List Argument → Text → Bool
switched prototypes [] key = false
switched prototypes (a ∷ as') key =
    is_switch a.argument_type && key_fits_argument prototypes key a || switched prototypes as' key

unfoldable pub value : List ArgumentPrototype → List Argument → Text → Text
value prototypes [] key = []
value prototypes (a ∷ as') key =
    if is_token a.argument_type && key_fits_argument prototypes key a
    then a.value
    else value prototypes as' key

unfoldable pub parameters : List Argument → List Text
parameters [] = []
parameters (a ∷ as') = elim a.argument_type [
  | parameter ↦ a.value ∷ parameters as'
  | _ ↦ parameters as'
]
