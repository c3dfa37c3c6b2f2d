-- ===== src/Config/Validate.antt =====
-- `Config.validate` of nix/gateway.py: every fatal misconfiguration, and what a configuration without one
-- guarantees.
use rebekah.Prelude.{
  ◌≡◌, Bool, true, false, not, ◌&&◌, ◌||◌, Option, none, some, List, [], ◌∷◌, ◌++◌, leb,
}
use rebekah.Prelude.Text.{Text, codes, is_empty, is_member, starts_with}
use rebekah.Prelude.Dict.{Dict, lookup}
use rebekah.Http.Upstream.{Backend}
use rebekah.Dash.Targets.{Url, DashConfig, loopback, when, dash_problems}
use rebekah.Dash.Admission.{IsAdmitted}

pub record Settings : Type 0 where
  pub host : Text
  pub tls_cert : Text
  pub tls_key : Text
  pub token : Text
  pub oidc_issuer : Text
  pub oidc_audience : Text
  pub password_enabled : Bool
  pub daily_agenda_dir : Text
  pub backends : Dict Backend
  pub dash : DashConfig

abbrev pub is_nil {ℓ} : {A : Type ℓ} → List A → Bool
is_nil [] = true
is_nil (x ∷ xs) = false

unfoldable pub tls_enabled : Settings → Bool
tls_enabled cfg = not (is_empty cfg.tls_cert) && not (is_empty cfg.tls_key)

unfoldable pub oidc_enabled : Settings → Bool
oidc_enabled cfg = not (is_empty cfg.oidc_issuer) && not (is_empty cfg.oidc_audience)

unfoldable pub token_enabled : Settings → Bool
token_enabled cfg = not (is_empty cfg.token)

unfoldable pub dash_enabled : Settings → Bool
dash_enabled cfg =
    not (is_empty cfg.dash.dash_url)
    || not (is_empty cfg.dash.dash_push_key)
    || not (is_nil cfg.dash.dash_mirrors)

abbrev pub is_local : Backend → Bool
is_local b = is_member b.host loopback && leb 1 b.port && leb b.port 65535

abbrev pub frog_problems : Option Backend → List Text
frog_problems none = []
frog_problems (some b) =
    when (not (is_local b))
      (codes "Frog must be a loopback source with an explicit valid FROG_PORT")

abbrev pub dash_problems_if : Bool → (Text → Url) → DashConfig → List Text
dash_problems_if true urlsplit dash = dash_problems urlsplit dash
dash_problems_if false urlsplit dash = []

abbrev pub is_unshielded : Settings → Bool
is_unshielded cfg = not (is_member cfg.host loopback) && not (tls_enabled cfg)

abbrev pub is_open : Settings → Bool
is_open cfg = not (token_enabled cfg || oidc_enabled cfg || cfg.password_enabled)

abbrev pub has_no_key : Settings → Bool
has_no_key cfg = not (is_empty cfg.tls_cert) && is_empty cfg.tls_key

abbrev pub has_no_cert : Settings → Bool
has_no_cert cfg = not (is_empty cfg.tls_key) && is_empty cfg.tls_cert

abbrev pub is_relative : Settings → Bool
is_relative cfg =
    not (is_empty cfg.daily_agenda_dir) && not (starts_with cfg.daily_agenda_dir (codes "/"))

abbrev pub bind_problem : Settings → Text
bind_problem cfg =
    codes "refusing to bind "
    ++ (cfg.host
        ++ codes
            " without TLS: set REBEKAH_GATEWAY_TLS_CERT/_KEY, or bind 127.0.0.1 and front it with a TLS proxy")

abbrev pub auth_problem : Text
auth_problem =
    codes
      "no auth configured: keep REBEKAH_AUTH_PASSWORD=1 (SQLite login, the default), or set REBEKAH_GATEWAY_TOKEN (internal) and/or REBEKAH_OIDC_ISSUER + REBEKAH_OIDC_AUDIENCE (external)"

abbrev pub cert_problem : Text
cert_problem = codes "REBEKAH_GATEWAY_TLS_CERT set without REBEKAH_GATEWAY_TLS_KEY"

abbrev pub key_problem : Text
key_problem = codes "REBEKAH_GATEWAY_TLS_KEY set without REBEKAH_GATEWAY_TLS_CERT"

abbrev pub agenda_problem : Text
agenda_problem = codes "REBEKAH_DAILY_AGENDA_DIR must be an absolute directory path"

abbrev pub expose_problem : Text
expose_problem =
    codes
      "no exposed backends: set REBEKAH_GATEWAY_EXPOSE to a subset of weftmark opencode sylvae ollama ephor frog"

unfoldable pub validate : (Text → Url) → Settings → List Text
validate urlsplit cfg =
    when (is_unshielded cfg) (bind_problem cfg)
    ++ (when (is_open cfg) auth_problem
        ++ (when (has_no_key cfg) cert_problem
            ++ (when (has_no_cert cfg) key_problem
                ++ (dash_problems_if (dash_enabled cfg) urlsplit cfg.dash
                    ++ (when (is_relative cfg) agenda_problem
                        ++ (frog_problems (lookup (codes "frog") cfg.backends)
                            ++ when (is_nil cfg.backends) expose_problem))))))

-- What a valid configuration guarantees: it listens to the machine itself or over TLS, has a scheme of
-- authentication, whole TLS settings and a backend, takes Frog from the machine itself, and has Dash
-- targets that can be pushed to where it has any.
pub record IsValid (urlsplit : Text → Url) (cfg : Settings) : Type 0 where
  pub shielded : (is_member cfg.host loopback || tls_enabled cfg) ≡ true
  pub authenticated : (token_enabled cfg || oidc_enabled cfg || cfg.password_enabled) ≡ true
  pub whole_tls : is_empty cfg.tls_cert ≡ is_empty cfg.tls_key
  pub exposed : is_nil cfg.backends ≡ false
  pub frog_local : (b : Backend) → lookup (codes "frog") cfg.backends ≡ some b → is_local b ≡ true
  pub pushed : dash_enabled cfg ≡ true → IsAdmitted urlsplit cfg.dash
