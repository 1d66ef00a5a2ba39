-- ===== src/Examples/Retention.antt =====
-- A sweep over three runs.
use quaestor.Base.{◌≡◌, some, none, List, [], ◌∷◌, filter, length}
use quaestor.Core.Retention.{RunRow, sweep}
use quaestor.Core.Retention.Kept.{is_held, is_disposable, sweep_counts}

abbrev runs : List RunRow
runs =
    record {
      run_id = "a";
      execution_state = "CANCELLED";
      refusal_reason = "";
      terminal_at = some 5;
    }
    ∷ record {
      run_id = "b";
      execution_state = "AMBIGUOUS_EXECUTION";
      refusal_reason = "";
      terminal_at = some 5;
    }
    ∷ record { run_id = "c"; execution_state = "RUNNING"; refusal_reason = ""; terminal_at = none }
    ∷ []

sweep_counts_example :
    let report = sweep runs 10 100 in
    (report.counts.owner_hold ≡ length (filter is_held runs))
    × (report.counts.eligible_for_gc ≡ length (filter (is_disposable 10 100) runs))
sweep_counts_example = sweep_counts runs 10 100
