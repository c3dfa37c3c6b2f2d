-- ===== src/Oci/Connection.antt =====
-- `_connection` of tools/oci_registry_probe.py, with the network that it and its callers use.
use rebekah.Prelude.{ℕ, Option, none, some, List, [], ◌∷◌, ◌++◌}
use rebekah.Prelude.Text.{Text}
use rebekah.Prelude.Exec.{ok, err}
use rebekah.Oci.Refusal.{io_error, Checked}
use rebekah.Oci.Act.{Act, ◌>>=◌, checked}
use rebekah.Oci.Disk.{Bytes}
use rebekah.Oci.Registry.{Ip, Candidate, Origin, registry_host, pinned}

-- Where a connection goes: port 443 of the address, with the host's name in its certificate.
pub record Pin : Type 0 where
  pub address : Ip
  pub host : Text

pub record Reply : Type 0 where
  pub status : ℕ
  pub content_type : Option Text
  pub content_length : Option Text
  pub body : Bytes

-- The network: the answers that it will give, none for an OSError, and the requests that it got.
pub record Net : Type 0 where
  pub names : List (Option (List Candidate))
  pub replies : List (Option Reply)
  pub sent : List (Pin × Text)

abbrev pub next_names : Net → List (Option (List Candidate)) → Checked (List Candidate) × Net
next_names net [] = (err io_error, net)
next_names net (none ∷ rest) = (err io_error, record net { names = rest })
next_names net (some ks ∷ rest) = (ok ks, record net { names = rest })

-- `socket.getaddrinfo`
unfoldable pub getaddrinfo : Act Net (List Candidate)
getaddrinfo net = next_names net net.names

unfoldable pub connection : (Text → Option Origin) → Text → Text → Text → Act Net Pin
unfolding registry_host getaddrinfo pinned
connection urlsplit registry repository digest = do
  host ← checked (registry_host urlsplit registry repository digest)
  candidates ← getaddrinfo
  ip ← checked (pinned candidates)
  checked (ok (record { address = ip; host = host }))

abbrev pub next_reply : Net → List (Option Reply) → Checked Reply × Net
next_reply net [] = (err io_error, net)
next_reply net (none ∷ rest) = (err io_error, record net { replies = rest })
next_reply net (some r ∷ rest) = (ok r, record net { replies = rest })

-- `conn.request("GET", path)` and `conn.getresponse()`, over a connection to the pinned address.
unfoldable pub get_reply : Pin → Text → Act Net Reply
get_reply pin path net =
    next_reply (record net { sent = net.sent ++ ((pin, path) ∷ []) }) net.replies
