-- ===== src/Config/Tests.antt =====
-- A small valid configuration.
use rebekah.Prelude.{true, none, [], ◌∷◌}
use rebekah.Prelude.Int.{pos}
use rebekah.Prelude.Text.{Text, codes}
use rebekah.Dash.Targets.{Url}
use rebekah.Config.Validate.{Settings}

abbrev settings : Settings
settings = record {
  host = codes "127.0.0.1";
  tls_cert = [];
  tls_key = [];
  token = codes "s3";
  oidc_issuer = [];
  oidc_audience = [];
  password_enabled = true;
  daily_agenda_dir = [];
  backends = (codes "weftmark", record { host = codes "h"; port = 80; credentials = none }) ∷ [];
  dash = record {
    dash_url = [];
    dash_push_key = [];
    dash_mirrors = [];
    dash_poll = pos 30;
    dash_heartbeat = pos 300;
  };
}

abbrev urlsplit : Text → Url
urlsplit s = record {
  scheme = s;
  hostname = none;
  username = none;
  password = none;
  query = [];
  fragment = [];
}
