-- ===== src/Base64/Total.antt =====
-- What `base64_decode` does on every text of 7-bit characters.
use multivpn.Base64.{Table, unset, built, freed}
use multivpn.Prelude.{◌≡◌, length}

-- The static table pointer is NULL, or points to a table of 256 entries.
abbrev pub IsTable : Table → Type 0
IsTable unset = Unit
IsTable (built table) = length table ≡ 256
IsTable freed = ⊥
