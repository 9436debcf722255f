-- ===== src/Arguments/Tests.antt =====
-- The law of utils/src/ArgumentParser.cpp on the prototypes of the daemon.
use macdetect.Base.{List, [], ◌∷◌, map, some, text, str_eq, ◌≡◌, refl, true, false}
use macdetect.Arguments.{switch, token, ArgumentPrototype, parse}
use macdetect.Arguments.RoundTrip.{
  Item, switched_on, given, plain, write_all, argument_of, parse-write_all,
}

abbrev as_daemon : ArgumentPrototype
as_daemon = record { short_name = text "d"; long_name = text "daemon"; argument_type = switch }

abbrev config_file : ArgumentPrototype
config_file = record {
  short_name = text "c";
  long_name = text "config-file";
  argument_type = token;
}

abbrev items : List Item
items = given config_file false (text "-d") ∷ plain (text "x") ∷ switched_on as_daemon true ∷ []

parse-write_all_example :
    parse (as_daemon ∷ config_file ∷ []) [] (write_all items) ≡ some (map argument_of items)
unfolding text str_eq
parse-write_all_example =
    parse-write_all (as_daemon ∷ config_file ∷ []) items
      (((refl, refl), refl), (refl, (((refl, refl), refl), tt)))
