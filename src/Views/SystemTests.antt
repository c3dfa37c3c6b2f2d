-- ===== src/Views/SystemTests.antt =====
-- The view of the system at a small configuration.
use rebekah.Prelude.{true, none, [], ◌∷◌}
use rebekah.Prelude.Int.{pos}
use rebekah.Prelude.Text.{codes}
use rebekah.Config.Validate.{Settings}

abbrev settings : Settings
settings = record {
  host = codes "127.0.0.1";
  tls_cert = [];
  tls_key = [];
  token = codes "s3";
  oidc_issuer = [];
  oidc_audience = [];
  password_enabled = true;
  daily_agenda_dir = [];
  backends = (codes "ephor", record { host = codes "h"; port = 80; credentials = none }) ∷ [];
  dash = record {
    dash_url = codes "https://dash";
    dash_push_key = codes "key";
    dash_mirrors = [];
    dash_poll = pos 30;
    dash_heartbeat = pos 300;
  };
}

-- Other secrets, another host, and a mirror with a key of its own.
abbrev moved : Settings
moved = record settings {
  token = codes "s4";
  backends =
      (codes "ephor", record { host = codes "elsewhere"; port = 81; credentials = none }) ∷ [];
  dash = record settings.dash {
    dash_push_key = codes "other";
    dash_mirrors = (codes "https://mirror", codes "third") ∷ [];
  };
}
