-- ===== src/Tests/Memory.antt =====
-- Runs of the encoders of loads and stores.
use bcpl.Prelude.{Text, codes}

abbrev x19 : Text
x19 = codes "X19"

abbrev x29 : Text
x29 = codes "X29"

abbrev count : Text
count = codes "count"
