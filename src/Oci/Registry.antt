-- ===== src/Oci/Registry.antt =====
-- The checks of `_connection` of tools/oci_registry_probe.py: a registry, a repository, a digest,
-- and the addresses that the registry's name resolves to.
use rebekah.Prelude.{
  ℕ, Bool, true, false, not, ◌&&◌, ◌||◌, ◌==◌, Option, none, some, List, [], ◌∷◌, if◌then◌else◌,
  length, leb, all,
}
use rebekah.Prelude.Text.{Text, codes, text_eq, is_empty, is_member, starts_with}
use rebekah.Prelude.Exec.{ok}
use rebekah.Regex.{headed_run, is_digit}
use rebekah.Http.Pages.{parts_of}
use rebekah.Oci.Refusal.{Checked, ensure, require, ◌>>=◌}
use rebekah.Oci.Disk.{is_digest}

-- What `urlsplit(registry)` and its `.port` yield.
pub record Origin : Type 0 where
  pub scheme : Text
  pub hostname : Option Text
  pub username : Option Text
  pub password : Option Text
  pub port : Option ℕ
  pub path : Text
  pub query : Text
  pub fragment : Text

-- A result of `getaddrinfo`: `ip` is what `ipaddress.ip_address` makes of the address, with none for
-- a ValueError, and `is_inet` says that the family is IPv4 or IPv6.
pub record Ip : Type 0 where
  pub is_global : Bool
  pub text : Text

pub record Candidate : Type 0 where
  pub is_inet : Bool
  pub ip : Option Ip

abbrev is_repository_head : ℕ → Bool
is_repository_head c = is_digit c || (leb b'a' c && leb c b'z')

abbrev is_repository_char : ℕ → Bool
is_repository_char c = is_repository_head c || c == b'.' || c == b'_' || c == b'/' || c == b'-'

abbrev any_dotted : List Text → Bool
any_dotted [] = false
any_dotted (p ∷ ps) = is_member p ([] ∷ codes "." ∷ codes ".." ∷ []) || any_dotted ps

unfoldable pub is_repository : Text → Bool
unfolding headed_run text_eq
is_repository s =
    headed_run is_repository_head is_repository_char 254 s && not (any_dotted (parts_of s))

abbrev is_host_char : ℕ → Bool
is_host_char c = is_repository_head c || c == b'.' || c == b'-'

abbrev ends_with_dot : Text → Bool
ends_with_dot [] = false
ends_with_dot (c ∷ []) = c == b'.'
ends_with_dot (c ∷ d ∷ s) = ends_with_dot (d ∷ s)

unfoldable pub is_host : Text → Bool
unfolding starts_with
is_host s =
    all is_host_char s
    && not (is_empty s)
    && not (starts_with s (codes "-"))
    && not (ends_with_dot s)

abbrev or_nil : Option Text → Text
or_nil none = []
or_nil (some s) = s

abbrev https_port : Option ℕ → Bool
https_port none = true
https_port (some n) = n == 443

-- The host of a bare HTTPS origin.
unfoldable pub origin_host : Origin → Option Text
unfolding text_eq
origin_host o =
    if text_eq o.scheme (codes "https")
      && (not (is_empty (or_nil o.hostname))
          && (is_empty (or_nil o.username)
              && (is_empty (or_nil o.password)
                  && (https_port o.port
                      && (is_member o.path ([] ∷ codes "/" ∷ [])
                          && (is_empty o.query && is_empty o.fragment))))))
    then o.hostname
    else none

-- The loop over the candidates: those that are public, or a ValueError.
unfoldable pub public_ones : List Candidate → Checked (List Ip)
public_ones [] = ok []
public_ones (k ∷ ks) =
    let rest = public_ones ks in
    require k.ip (codes "not an IP address") >>= λ ip.
    rest >>= λ ips. ok (if k.is_inet && ip.is_global then ip ∷ ips else ips)

-- All of them are public, and there is one: the first.
abbrev first_ip : List Ip → Option Ip
first_ip [] = none
first_ip (ip ∷ ips) = some ip

abbrev pub only_public : ℕ → List Ip → Option Ip
only_public count ips = if length ips == count then first_ip ips else none

abbrev bare : Text
bare = codes "registry must be a bare HTTPS origin"

-- The checks before the name is resolved: the host.
unfoldable pub registry_host : (Text → Option Origin) → Text → Text → Text → Checked Text
unfolding is_repository is_digest origin_host is_host
registry_host urlsplit registry repository digest = do
  _ ← ensure (is_repository repository) (codes "invalid repository")
  _ ← ensure (is_digest digest) (codes "require immutable sha256 digest")
  parsed ← require (urlsplit registry) bare
  host ← require (origin_host parsed) bare
  _ ← ensure (is_host host) (codes "registry host must be a plain ASCII DNS name")
  ok host

-- The address that a connection is pinned to: the first, where all are public.
unfoldable pub pinned : List Candidate → Checked Ip
unfolding public_ones
pinned candidates = do
  ips ← public_ones candidates
  require (only_public (length candidates) ips)
      (codes "registry DNS must resolve exclusively to public IP addresses")
