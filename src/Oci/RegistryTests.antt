-- ===== src/Oci/RegistryTests.antt =====
-- A probe and an acquisition against a registry that answers, and one that resolves to a private
-- address.
use rebekah.Prelude.{ℕ, ◌≡◌, refl, true, false, none, some, Option, [], ◌∷◌}
use rebekah.Prelude.Int.{pos}
use rebekah.Prelude.Text.{Text, codes}
use rebekah.Json.{int, object, array}
use rebekah.Oci.Disk.{Host}
use rebekah.Oci.Registry.{Origin, Candidate}
use rebekah.Oci.Connection.{Net, Reply}
use rebekah.Oci.Fetch.{manifest_type}
use rebekah.Oci.Acquire.{Site, Tree, files_of, nothing, empty_directory, absent, acquired, acquire}
use rebekah.Oci.Public.{AllPublic, acquire-AllPublic}
use rebekah.Oci.Atomic.{Outcome, acquire-Outcome}
use rebekah.Oci.Fixtures.{hex, digest, first_byte, descriptor}

abbrev host : Host
host = record {
  sha256 = λ bs. hex (first_byte bs);
  loads = λ bs. some (
      object (
        (codes "schemaVersion", int (pos 2))
        ∷ (codes "layers", array (descriptor 3 ∷ []))
        ∷ (codes "config", descriptor 4)
        ∷ []));
}

abbrev urlsplit : Text → Option Origin
urlsplit s = some (record {
  scheme = codes "https";
  hostname = some (codes "ghcr.io");
  username = none;
  password = none;
  port = none;
  path = [];
  query = [];
  fragment = [];
})

abbrev address : Candidate
address = record {
  is_inet = true;
  ip = some (record { is_global = true; text = codes "140.82.112.33" });
}

abbrev reply : ℕ → Option Text → Reply
reply n media = record {
  status = 200;
  content_type = media;
  content_length = some (codes "1");
  body = n ∷ [];
}

abbrev net : Net
net = record {
  names = some (address ∷ []) ∷ some (address ∷ []) ∷ some (address ∷ []) ∷ [];
  replies = some (reply 1 (some manifest_type)) ∷ some (reply 4 none) ∷ some (reply 3 none) ∷ [];
  sent = [];
}

abbrev site : Site
site = record {
  net = net;
  parent_is_dir = true;
  destination = absent;
  appears = false;
  late = nothing;
  mkdtemp_fails = false;
  fails_after = none;
  rmtree_fails = false;
  stage = none;
}

abbrev tree : Tree
tree = record {
  blobs = (digest 1, 1 ∷ []) ∷ (digest 4, 4 ∷ []) ∷ (digest 3, 3 ∷ []) ∷ [];
  listed = digest 1;
  listed_size = 1;
}

acquire-site :
    (acquire host urlsplit (codes "https://ghcr.io") (codes "a/b") (digest 1) site).1.destination
    ≡ acquired (files_of tree)
unfolding acquire
acquire-site = refl

acquire-AllPublic_example :
    AllPublic (acquire host urlsplit (codes "https://ghcr.io") (codes "a/b") (digest 1) site).1.net
acquire-AllPublic_example =
    acquire-AllPublic host urlsplit (codes "https://ghcr.io") (codes "a/b") (digest 1) site tt

acquire-Outcome_example :
    Outcome host
      (digest 1)
      (acquire host urlsplit (codes "https://ghcr.io") (codes "a/b") (digest 1) site)
acquire-Outcome_example =
    acquire-Outcome host urlsplit (codes "https://ghcr.io") (codes "a/b") (digest 1) site tt refl

abbrev private_net : Net
private_net = record net {
  names =
      some (
        address
        ∷ record {
          is_inet = true;
          ip = some (record { is_global = false; text = codes "10.0.0.1" });
        }
        ∷ [])
      ∷ [];
}

acquire-private :
    (acquire host urlsplit
      (codes "https://ghcr.io")
      (codes "a/b")
      (digest 1)
      (record site { net = private_net })).1.net.sent
    ≡ []
unfolding acquire
acquire-private = refl

-- A write that fails after two files, and an empty directory that appears just before the rename.
acquire_write_fails :
    (acquire host urlsplit
      (codes "https://ghcr.io")
      (codes "a/b")
      (digest 1)
      (record site { fails_after = some 2 })).1.stage
    ≡ none
unfolding acquire
acquire_write_fails = refl

acquire_over_empty :
    (acquire host urlsplit
      (codes "https://ghcr.io")
      (codes "a/b")
      (digest 1)
      (record site { late = empty_directory })).1.destination
    ≡ acquired (files_of tree)
unfolding acquire
acquire_over_empty = refl
