-- ===== src/Vendors/ReadLines.antt =====
-- `Data::tryReadVendors` and `Data::vendorForMAC` of macdetectd/src/Data.cpp together.
use macdetect.Base.{
  List, [], ◌∷◌, ◌++◌, Option, none, some, Text, str_eq, ◌≡◌, length, trim_end, if◌then◌else◌,
}
use macdetect.Vendors.{is_padding}

-- An entry of the file: three bytes of an address, and the vendor.
abbrev pub Entry : Type 0
Entry = Text × Text

-- Its line: the vendor stands in quotes behind a comma.
abbrev pub line_of : Entry → Text
line_of (key, vendor) = key ++ b',' ∷ b'"' ∷ (vendor ++ b'"' ∷ [])

-- The key has six characters, and neither text ends with a blank or a quote. The vendor is not empty.
pub record IsEntry (e : Entry) : Type 0 where
  pub six : length e.0 ≡ 6
  pub key_trimmed : trim_end is_padding e.0 ≡ e.0
  pub vendor_trimmed : trim_end is_padding (b'"' ∷ e.1) ≡ b'"' ∷ e.1

-- The vendor in the last entry for a key.
unfoldable pub last_vendor : Text → List Entry → Option Text
last_vendor k [] = none
last_vendor k ((key, vendor) ∷ es) = elim (last_vendor k es) [
  | some v ↦ some v
  | none ↦ if str_eq key k then some vendor else none
]
