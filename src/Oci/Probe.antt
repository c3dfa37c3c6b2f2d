-- ===== src/Oci/Probe.antt =====
-- `fetch_manifest` and `probe` of tools/oci_registry_probe.py.
use rebekah.Prelude.{Option, [], ◌∷◌, ◌++◌, length}
use rebekah.Prelude.Int.{pos}
use rebekah.Prelude.Text.{Text, codes}
use rebekah.Json.{Json, str, int, object}
use rebekah.Oci.Act.{Act, ◌>>=◌, checked}
use rebekah.Prelude.Exec.{ok}
use rebekah.Oci.Disk.{Bytes, Host}
use rebekah.Oci.Registry.{Origin}
use rebekah.Oci.Connection.{Net, connection, get_reply}
use rebekah.Oci.Fetch.{accept_manifest}

-- `/v2/{repository}/{kind}/{digest}`
abbrev pub path_of : Text → Text → Text → Text
path_of repository kind digest =
    codes "/v2/" ++ (repository ++ (codes "/" ++ (kind ++ (codes "/" ++ digest))))

module _ (h : Host) (urlsplit : Text → Option Origin) where
  unfoldable pub fetch_manifest : Text → Text → Text → Act Net (Bytes × Text)
  unfolding connection get_reply accept_manifest
  fetch_manifest registry repository digest = do
    pin ← connection urlsplit registry repository digest
    reply ← get_reply pin (path_of repository (codes "manifests") digest)
    checked (accept_manifest h digest reply)

  unfoldable pub probe : Text → Text → Text → Act Net Json
  unfolding fetch_manifest
  probe registry repository digest = do
    found ← fetch_manifest registry repository digest
    checked (
        ok (
          object (
            (codes "registry", str registry)
            ∷ (codes "repository", str repository)
            ∷ (codes "digest", str digest)
            ∷ (codes "mediaType", str found.1)
            ∷ (codes "size", int (pos (length found.0)))
            ∷ (codes "integrity", str (codes "manifest-sha256-verified"))
            ∷ (codes "blobs", str (codes "not-fetched"))
            ∷ (codes "signature", str (codes "not-verified"))
            ∷ (codes "identity", str (codes "not-verified"))
            ∷ (codes "publication", str (codes "not-authorized"))
            ∷ [])))
