-- ===== src/Vendors/Tests.antt =====
-- The law of macdetectd/src/Data.cpp on a file of two vendors.
use macdetect.Base.{text}
use macdetect.Vendors.ReadLines.{Entry}

abbrev netgear : Entry
netgear = (text "2C3033", text "NETGEAR")

abbrev lab : Entry
lab = (text "020000", text "Test Lab")
