-- ===== src/Vendors.antt =====
-- macdetectd/src/Data.cpp: the vendors of the addresses, read from `oui.txt`. The files themselves
-- are an argument: their lines, if the file is there.
pub mod ReadLines
pub mod Paths
mod Tests
use macdetect.Base.{
  ℕ, ◌-◌, Bool, true, false, ◌&&◌, ◌||◌, List, [], ◌∷◌, ◌++◌, map, Option, none, some, Text, text,
  leb, ltb, ◌==◌, substr, trim_end, drop, take, length, if◌then◌else◌, ◌>>=◌,
}
use macdetect.Base.Dict.{lookup, insert}

-- `::toupper`
unfoldable pub to_upper : ℕ → ℕ
to_upper c = if leb b'a' c && leb c b'z' then c - 32 else c

-- The first three bytes of an address, without the colons. An address has seventeen characters.
unfoldable pub vendor_key : Text → Text
unfolding to_upper
vendor_key mac = map to_upper (substr mac 0 2 ++ (substr mac 3 2 ++ substr mac 6 2))

-- The vendor, or `none` for `{false, ""}`.
unfoldable pub vendor_for_mac : List (Text × Text) → Text → Option Text
vendor_for_mac cache mac = lookup (vendor_key mac) cache

-- `Network::vendorForMAC`
unfoldable pub vendor_name : List (Text × Text) → Text → Text
unfolding vendor_for_mac
vendor_name cache mac = elim (vendor_for_mac cache mac) [ some v ↦ v | none ↦ [] ]

-- `Network::readableMACIdentifier`
unfoldable pub readable_mac_identifier : List (Text × Text) → Text → Bool → Text
unfolding vendor_for_mac
readable_mac_identifier cache mac default_to_mac = elim (vendor_for_mac cache mac) [
  | some v ↦ b'"' ∷ (v ++ (b'"' ∷ drop 8 mac))
  | none ↦ if default_to_mac then mac else []
]

-- `s.substr(pos)`, which throws if the text is shorter.
unfoldable pub from : Text → ℕ → Option Text
from s pos = if ltb (length s) pos then none else some (drop pos s)

unfoldable pub is_padding : ℕ → Bool
is_padding c = c == b' ' || c == b'\n' || c == b'\r' || c == b'\t' || c == b'"'

-- The address and the vendor of a line; `none` is an exception.
unfoldable pub parse_line : Text → Option (Text × Text)
unfolding from is_padding
parse_line line = do
  rest ← from line 7
  vendor ← from (trim_end is_padding rest) 1
  some (trim_end is_padding (take 6 line), vendor)

unfoldable pub read_lines : List (Text × Text) → List Text → Option (List (Text × Text))
unfolding parse_line
read_lines cache [] = some cache
read_lines cache (line ∷ lines) = do
  (mac, vendor) ← parse_line line
  read_lines (insert mac vendor cache) lines

-- `readVendors`: the first of the places that has the file. The result is the cache and the answer.
unfoldable pub read_vendors :
    (Text → Option (List Text))
    → List Text
    → List (Text × Text)
    → Option (List (Text × Text) × Bool)
read_vendors file [] cache = some (cache, false)
read_vendors file (place ∷ places) cache = elim (file (place ++ text "/oui.txt")) [
  | some lines ↦ read_lines cache lines >>= λ c. some (c, true)
  | none ↦ read_vendors file places cache
]

-- The places that are tried.
unfoldable pub locations : Text → Text → List Text
locations data_path file_path = elim file_path [
  | [] ↦ data_path ∷ text "/usr/local/share/macdetect/data" ∷ text "/usr/share/macdetect/data" ∷ []
  | c ∷ cs ↦ (c ∷ cs) ∷ []
]
