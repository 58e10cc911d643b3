-- ===== src/Examples/Drift.antt =====
-- A run of the drift job of reconciliation/job.py, for two tenants, and one that fails.
use budget_governor.Prelude.{
  ◌≡◌, refl, String, Bool, true, false, Option, some, [], ◌∷◌, str_eq, if◌then◌else◌,
}
use budget_governor.Prelude.Int.{ℤ, pos, ◌-ℤ◌, ◌+ℤ◌}
use budget_governor.Prelude.Float.{fixed}
use budget_governor.Services.Reconciliation.{
  Database, Job, detect_drift, window_from, reconcile_window, insert_run, persist_drifts,
  persist_result, record_failure, run_from_db,
}
use budget_governor.Services.Reconciliation.Recorded.{IsJob, run_from_db-IsRun}

-- Acme was billed ten dollars more than the gateway counted, and Zeta what it counted.
abbrev billed : String → Option ℤ
billed tenant = some (if str_eq tenant "acme" then pos 100_000_000_000 else pos 20_000_000_000)

abbrev job : Bool → Job ℤ
job fine = record {
  connects = true;
  observed = some (("acme", pos 90_000_000_000) ∷ ("zeta", pos 20_000_000_000) ∷ []);
  reported = billed;
  inserts_run = true;
  inserts_drift = λ _. fine;
  inserts_failure = true;
}

abbrev five_percent : ℤ
five_percent = pos 50_000_000

abbrev no_runs : Database ℤ
no_runs = record { runs = []; drifts = []; next_id = 7 }

acme_drifts :
    let (_, db) = run_from_db (job true) five_percent no_runs in
    db.drifts
    ≡ (record {
      of_run = 7;
      drift = detect_drift "acme" (pos 90_000_000_000) (pos 100_000_000_000) five_percent;
    })
      ∷ []
unfolding run_from_db reconcile_window window_from detect_drift persist_result persist_drifts
    insert_run ◌-ℤ◌
acme_drifts = refl

-- The insert of the drift fails: behind the run that looks complete stands another for the failure.
two_runs :
    let (_, db) = run_from_db (job false) five_percent no_runs in
    db.runs
    ≡ (record {
      run_id = 7;
      completed = true;
      run_drift_detected = true;
      drift_amount = pos 10_000_000_000;
    })
      ∷ (record { run_id = 8; completed = false; run_drift_detected = false; drift_amount = pos 0 })
      ∷ []
unfolding run_from_db reconcile_window window_from detect_drift persist_result persist_drifts
    insert_run record_failure ◌-ℤ◌ ◌+ℤ◌
two_runs = refl

run_from_db-IsRun_example :
    IsJob (job false) five_percent no_runs (run_from_db (job false) five_percent no_runs)
run_from_db-IsRun_example = run_from_db-IsRun (job false) five_percent no_runs
