-- ===== src/Bridge/Tests.antt =====
-- Runs of the MCP bridge's model, and the theorems at concrete inputs.
use rebekah.Prelude.{◌+◌, ◌≡◌, refl, true, none, some, List, [], ◌∷◌, ◌++◌}
use rebekah.Prelude.Int.{pos}
use rebekah.Prelude.Text.{codes, text_eq}
use rebekah.Bridge.Pump.{Bytes, Round, pump, incoming, pump_passes, meets_end, as_count}
use rebekah.Bridge.Main.{main, serves, exits}
use rebekah.Bridge.Server.{
  Event, connection, popen, child_ends, run, listening, refuses_uid, spawns, kills, closes,
}
use rebekah.Bridge.Slots.{IsSound, run-IsSound}
use rebekah.Bridge.Closing.{count_closed, count_held, run_closes}

abbrev rounds : List Round
rounds =
    record { read = some (1 ∷ 2 ∷ []); fails_after = none }
    ∷ record { read = some (3 ∷ 4 ∷ []); fails_after = some 1 }
    ∷ record { read = some (5 ∷ []); fails_after = none }
    ∷ []

pump-rounds : pump rounds ≡ record { sent = 1 ∷ 2 ∷ 3 ∷ []; done = 1 }
unfolding pump
pump-rounds = refl

pump_passes_example :
    ((rest : Bytes) × ((pump rounds).sent ++ rest ≡ incoming rounds))
    × ((pump rounds).done ≡ as_count (meets_end rounds))
pump_passes_example = pump_passes rounds

abbrev history : List Event
history =
    connection (some (pos 10007))
    ∷ popen 0 true
    ∷ connection (some (pos 1000))
    ∷ connection none
    ∷ connection (some (pos 10007))
    ∷ child_ends 1 true
    ∷ []

run-history :
    (run history (listening (pos 10007))).actions
    ≡ spawns (pos 10007) ∷ refuses_uid (pos 1000) ∷ closes 1 ∷ closes 2 ∷ kills ∷ closes 0 ∷ []
unfolding run listening
run-history = refl

run-IsSound_example : IsSound (pos 10007) (run history (listening (pos 10007)))
run-IsSound_example = run-IsSound (pos 10007) history

run_closes_example :
    count_closed 0 (run history (listening (pos 10007))).actions
      + count_held 0 (run history (listening (pos 10007))).sessions
    ≡ 1
run_closes_example = run_closes (pos 10007) history 0

serve_line :
    main (codes "serve" ∷ codes "/run/s" ∷ codes "10007" ∷ codes "--" ∷ codes "weftmark" ∷ [])
    ≡ serves (codes "/run/s") (pos 10007) (codes "weftmark") []
unfolding main text_eq
serve_line = refl

serve_bad_uid :
    main (codes "serve" ∷ codes "/run/s" ∷ codes "-5" ∷ codes "--" ∷ codes "weftmark" ∷ [])
    ≡ exits 64
unfolding main text_eq
serve_bad_uid = refl
