-- ===== src/Dash/Trimming.antt =====
-- What `DashPusher.views` of nix/gateway.py leaves out of a push that is too large.
use rebekah.Prelude.Text.{Text}
use rebekah.Prelude.Dict.{Dict}
use rebekah.Json.{Json}
