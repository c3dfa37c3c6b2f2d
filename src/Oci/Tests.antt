-- ===== src/Oci/Tests.antt =====
-- Runs of the OCI tools' models, and the theorems at concrete inputs.
use rebekah.Prelude.{
  ℕ, ◌-◌, ◌≡◌, ◌≢◌, refl, true, false, none, some, Option, List, [], ◌∷◌, All, if◌then◌else◌, ◌==◌,
}
use rebekah.Prelude.Int.{pos}
use rebekah.Prelude.Text.{codes, text_eq}
use rebekah.Prelude.Dict.{insert}
use rebekah.Prelude.Sort.{sorted}
use rebekah.Prelude.Exec.{ok, err}
use rebekah.Json.{Json, null, str, int, object, array}
use rebekah.Oci.Refusal.{refused, endless}
use rebekah.Oci.Disk.{Host, Node, Disk, Descriptor}
use rebekah.Oci.Inspect.{Artifact, no_subject, local_association, inspect}
use rebekah.Oci.Acyclic.{GoesRound, inspect-IsAcyclic}
use rebekah.Oci.Index.{digests, Distinct}
use rebekah.Oci.Halting.{inspect_halts}
use rebekah.Oci.Integrity.{AreVerified}
use rebekah.Oci.Verified.{inspect-AreVerified}
use rebekah.Oci.Referrers.{referring, inspect-referrers}
use rebekah.Oci.Fixtures.{hex, digest, first_byte, descriptor}

abbrev manifest : Json → Json
manifest subject = object (
    (codes "schemaVersion", int (pos 2))
    ∷ (codes "layers", array (descriptor 3 ∷ []))
    ∷ (codes "config", descriptor 3)
    ∷ (codes "subject", subject)
    ∷ [])

-- Blob 1 refers to blob 2; the index lists both.
abbrev parsed : Json → ℕ → Option Json
parsed second n =
    if n == 1
    then some (manifest (descriptor 2))
    else if n == 2
    then some (manifest second)
    else if n == 4
    then some (object ((codes "imageLayoutVersion", str (codes "1.0.0")) ∷ []))
    else if n == 5
    then some (
        object (
          (codes "schemaVersion", int (pos 2))
          ∷ (codes "manifests", array (descriptor 1 ∷ descriptor 2 ∷ []))
          ∷ []))
    else none

abbrev host : Json → Host
host second = record {
  sha256 = λ bs. hex (first_byte bs);
  loads = λ bs. parsed second (first_byte bs);
}

abbrev file : ℕ → Node
file n = record { is_symlink = false; is_file = true; stat_size = 1; content = n ∷ [] }

abbrev disk : Disk
disk = record {
  root_is_symlink = false;
  root_is_dir = true;
  blobs_is_symlink = false;
  sha256_is_symlink = false;
  layout = file 4;
  index = file 5;
  blob = λ name. file (first_byte name - 48);
}

abbrev described : ℕ → Descriptor
described n = record { digest = digest n; size = 1; media_type = codes "m" }

abbrev artifacts : List Artifact
artifacts =
    record {
      own = described 1;
      artifact_type = null;
      subject_value = descriptor 2;
      subject = some (described 2);
      layers = described 3 ∷ [];
      status = local_association;
      referrers = [];
    }
    ∷ record {
      own = described 2;
      artifact_type = null;
      subject_value = null;
      subject = none;
      layers = described 3 ∷ [];
      status = no_subject;
      referrers = digest 1 ∷ [];
    }
    ∷ []

inspect_two : inspect (host null) disk ≡ ok artifacts
unfolding inspect text_eq insert sorted
inspect_two = refl

inspect_round :
    inspect (host (descriptor 1)) disk ≡ err (refused (codes "cyclic OCI subject graph"))
unfolding inspect text_eq insert
inspect_round = refl

inspect_halts_example : inspect (host (descriptor 1)) disk ≢ err endless
inspect_halts_example = inspect_halts (host (descriptor 1)) disk

inspect-IsAcyclic_example :
    All (λ a. ¬ GoesRound artifacts a) artifacts × Distinct (digests artifacts)
inspect-IsAcyclic_example = inspect-IsAcyclic (host null) disk artifacts inspect_two

inspect-AreVerified_example : All (AreVerified (host null) disk) artifacts
inspect-AreVerified_example = inspect-AreVerified (host null) disk artifacts inspect_two

inspect-referrers_example :
    All (λ a. a.referrers ≡ sorted (referring a.own.digest artifacts)) artifacts
inspect-referrers_example = inspect-referrers (host null) disk artifacts inspect_two
