-- ===== src/Dash/PushTests.antt =====
-- The views of a push of an instance that exposes neither WeftMark nor Frog.
use rebekah.Prelude.{true, [], ◌∷◌}
use rebekah.Prelude.Text.{codes}
use rebekah.Prelude.Dict.{Dict}
use rebekah.Json.{Json, null, str, array, object}
use rebekah.Views.Kanban.{listing}
use rebekah.Dash.Envelope.{Parts, without_frog, without_agenda, whole}

abbrev optional_view : Dict Json
optional_view = (codes "schema", str (codes "s")) ∷ (codes "observed_at", str (codes "t")) ∷ []

abbrev parts : Parts
parts = record {
  kanban = null;
  attention_at = codes "t";
  change_sets_at = codes "t";
  system = null;
  oversight = array [];
  daily_agenda = optional_view;
  change_requests = object [];
  frog_kanban = optional_view;
}

abbrev no_attention : Json
no_attention = listing "rebekah.attention.v1" (codes "t") true []

abbrev no_change_sets : Json
no_change_sets = listing "rebekah.change-set-list.v1" (codes "t") true []

abbrev least : Dict Json
least = without_agenda (without_frog (whole parts no_attention no_change_sets))
