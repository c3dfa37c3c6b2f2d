-- ===== src/Oci/Fixtures.antt =====
-- Hashes, digests and descriptors for the tests of the OCI tools.
use rebekah.Prelude.{ℕ, zero, suc, ◌+◌, [], ◌∷◌, ◌++◌}
use rebekah.Prelude.Int.{pos}
use rebekah.Prelude.Text.{Text, codes}
use rebekah.Json.{Json, str, int, object}
use rebekah.Oci.Disk.{Bytes}

abbrev pub zeros : ℕ → Text
zeros zero = []
zeros (suc n) = 48 ∷ zeros n

-- The name of the blob that starts with a byte.
abbrev pub hex : ℕ → Text
hex n = (48 + n) ∷ zeros 63

abbrev pub digest : ℕ → Text
digest n = codes "sha256:" ++ hex n

abbrev pub first_byte : Bytes → ℕ
first_byte [] = 0
first_byte (b ∷ bs) = b

abbrev pub descriptor : ℕ → Json
descriptor n = object (
    (codes "digest", str (digest n))
    ∷ (codes "size", int (pos 1))
    ∷ (codes "mediaType", str (codes "m"))
    ∷ [])
