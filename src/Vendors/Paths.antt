-- ===== src/Vendors/Paths.antt =====
-- `Data::executablePath` and `Data::dataPath` of macdetectd/src/Data.cpp. What `readlink` gives is an
-- argument.
use macdetect.Base.{[], ◌∷◌, ◌++◌, Option, none, some, Text, text, ◌==◌, if◌then◌else◌}

-- What is in front of the last slash, if there is one.
unfoldable pub before_last_slash : Text → Option Text
before_last_slash [] = none
before_last_slash (c ∷ cs) = elim (before_last_slash cs) [
  | some front ↦ some (c ∷ front)
  | none ↦ if c == b'/' then some [] else none
]

-- Without a slash `find_last_of` gives `npos`, and the path stays as it is.
unfoldable pub executable_path : Option Text → Text
unfolding before_last_slash
executable_path none = []
executable_path (some path) = elim (before_last_slash path) [ some front ↦ front | none ↦ path ]

unfoldable pub data_path : Option Text → Text
unfolding executable_path
data_path link = executable_path link ++ text "/../data"
