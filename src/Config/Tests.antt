-- ===== src/Config/Tests.antt =====
-- The laws of utils/src/Config.cpp on a small configuration.
use macdetect.Base.{List, [], ◌∷◌, some, Text, text, str_eq, ◌≡◌, refl, trim_end}
use macdetect.Base.Dict.{lookup, insert, str_lt}
use macdetect.Config.{
  Sections, parse_lines, parse_from, load_from_string, split_string, raw_lines, trim_lines,
  filter_lines, uncomment, assignment, find_assign, section_of, stored_value, list,
}
use macdetect.Config.Lookup.{last_assigned, parse_lines_lem}
use macdetect.Config.Portions.{join, list-join}

abbrev names : List Text
names = text "wlan0" ∷ []

abbrev settings : Sections
settings = (text "server", (text "serve", join (text "eth0") names) ∷ []) ∷ []

abbrev lines : List Text
lines = text "[server]" ∷ text "serve=eth0,wlan0" ∷ []

load_comment : load_from_string (text "[server] # a\n\nserve=eth0,wlan0 \n") ≡ some settings
unfolding load_from_string parse_lines parse_from split_string raw_lines trim_lines filter_lines
    uncomment assignment find_assign section_of trim_end lookup insert str_lt text str_eq
load_comment = refl

parse_lines_lem_example :
    stored_value settings (text "server") (text "serve")
    ≡ last_assigned (text "global") lines (text "server") (text "serve")
unfolding parse_lines parse_from assignment find_assign section_of lookup insert str_lt text str_eq
parse_lines_lem_example = parse_lines_lem lines settings (text "server") (text "serve") refl

list-join_example :
    list settings (text "server") (text "serve") ≡ some (text "eth0" ∷ text "wlan0" ∷ [])
unfolding stored_value lookup text str_eq
list-join_example =
    list-join settings (text "server") (text "serve") (text "eth0") names refl refl (refl, tt)
