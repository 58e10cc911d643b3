-- ===== src/Services/Reconciliation.antt =====
-- reconciliation/job.py: the drift between what the gateway recorded and what a provider bills. What the
-- providers report, and which commands on the database fail, are parameters.
pub mod Window
pub mod Stored
pub mod Recorded
use budget_governor.Prelude.{
  ℕ, suc, String, Bool, true, false, Option, none, some, List, [], ◌∷◌, ◌++◌, ◌||◌, not, ◌&&◌,
  if◌then◌else◌,
}
use budget_governor.Prelude.Int.{pos}
use budget_governor.Prelude.Float.{Float, nought}
use budget_governor.Budget.Enforcer.{is_zero}

pub record TenantDrift (F : Type 0) : Type 0 where
  pub tenant_id : String
  pub gateway_observed_usd : F
  pub provider_reported_usd : F
  pub drift_amount_usd : F
  pub drift_pct : F
  pub exceeds_threshold : Bool

-- The window and the error, which nothing here reads, are left out.
pub record ReconciliationResult (F : Type 0) : Type 0 where
  pub drift_detected : Bool
  pub total_drift_amount_usd : F
  pub per_tenant : List (TenantDrift F)

-- A row of reconciliation_runs; `completed` is false where completed_at is NULL.
pub record RunRow (F : Type 0) : Type 0 where
  pub run_id : ℕ
  pub completed : Bool
  pub run_drift_detected : Bool
  pub drift_amount : F

-- A row of reconciliation_drift. Its numbers, and that of a run, are those before the columns round them.
pub record DriftRow (F : Type 0) : Type 0 where
  pub of_run : ℕ
  pub drift : TenantDrift F

-- The two tables, oldest row first, and the next number of the sequence.
pub record Database (F : Type 0) : Type 0 where
  pub runs : List (RunRow F)
  pub drifts : List (DriftRow F)
  pub next_id : ℕ

-- What a run of the job meets: whether the database can be reached, the sums of the gateway, if both queries go well, what the providers
-- report, and which inserts go well: that of the run, that of a drift, and that of a failed run.
pub record Job (F : Type 0) : Type 0 where
  pub connects : Bool
  pub observed : Option (List (String × F))
  pub reported : String → Option F
  pub inserts_run : Bool
  pub inserts_drift : TenantDrift F → Bool
  pub inserts_failure : Bool

module _ {F : Type 0} ⦃d : Float F⦄ where
  open d use {of_int, add, sub, div, lt}

  -- abs(x)
  abbrev pub absolute : F → F
  absolute x = if lt x nought then sub nought x else x

  abbrev pub drift_share : F → F → F
  drift_share observed reported =
      if is_zero reported
      then (if is_zero observed then nought else of_int (pos 1))
      else div (absolute (sub observed reported)) reported

  -- `detect_drift`, with the tenant that the caller fills in.
  unfoldable pub detect_drift : String → F → F → F → TenantDrift F
  detect_drift tenant_id observed reported threshold_pct = record {
    tenant_id = tenant_id;
    gateway_observed_usd = observed;
    provider_reported_usd = reported;
    drift_amount_usd = sub observed reported;
    drift_pct = drift_share observed reported;
    exceeds_threshold = lt threshold_pct (drift_share observed reported);
  }

  abbrev pub add_drift : TenantDrift F → ReconciliationResult F → ReconciliationResult F
  add_drift t r = record {
    drift_detected = t.exceeds_threshold || r.drift_detected;
    total_drift_amount_usd =
        if t.exceeds_threshold
        then add r.total_drift_amount_usd (absolute t.drift_amount_usd)
        else r.total_drift_amount_usd;
    per_tenant = r.per_tenant ++ t ∷ [];
  }

  -- The loop of `reconcile_window`; `none` is an exception of a provider.
  unfoldable pub window_from :
      (String → Option F)
      → F
      → List (String × F)
      → ReconciliationResult F
      → Option (ReconciliationResult F)
  window_from get_reported threshold [] r = some r
  window_from get_reported threshold ((tenant, observed) ∷ rest) r = elim (get_reported tenant) [
    | none ↦ none
    | some reported ↦
        window_from get_reported threshold rest
          (add_drift (detect_drift tenant observed reported threshold) r)
  ]

  unfoldable pub reconcile_window :
      List (String × F) → (String → Option F) → F → Option (ReconciliationResult F)
  reconcile_window observed get_reported threshold =
      window_from get_reported threshold observed
        (record { drift_detected = false; total_drift_amount_usd = nought; per_tenant = [] })

  unfoldable pub insert_run : Bool → Bool → F → Database F → Database F
  insert_run completed detected amount db = record db {
    runs =
        db.runs
        ++ record {
          run_id = db.next_id;
          completed = completed;
          run_drift_detected = detected;
          drift_amount = amount;
        }
          ∷ [];
    next_id = suc db.next_id;
  }

  -- The loop of `persist_result`, with whether each insert goes well; `false` is an exception.
  unfoldable pub persist_drifts :
      (TenantDrift F → Bool) → ℕ → List (TenantDrift F) → Database F → Bool × Database F
  persist_drifts ok run [] db = (true, db)
  persist_drifts ok run (t ∷ ts) db =
      let rest = persist_drifts ok run ts db in
      let stored =
        persist_drifts ok run ts
          (record db { drifts = db.drifts ++ record { of_run = run; drift = t } ∷ [] }) in
      if t.exceeds_threshold then (if ok t then stored else (false, db)) else rest

  -- `persist_result`, with whether the first insert goes well.
  unfoldable pub persist_result :
      Bool → (TenantDrift F → Bool) → ReconciliationResult F → Database F → Bool × Database F
  persist_result run_ok ok r db =
      if run_ok
      then persist_drifts ok db.next_id r.per_tenant
          (insert_run true r.drift_detected r.total_drift_amount_usd db)
      else (false, db)

  -- The handler of an exception.
  unfoldable pub record_failure : Bool → Database F → Database F
  record_failure ok db = if ok then insert_run false false nought db else db

  abbrev pub persisted :
      Bool
      → ReconciliationResult F
      → Bool × Database F
      → Option (ReconciliationResult F) × Database F
  persisted ok r (true, db) = (some r, db)
  persisted ok r (false, db) = (none, record_failure ok db)

  abbrev pub run_with :
      Job F
      → Option (ReconciliationResult F)
      → Database F
      → Option (ReconciliationResult F) × Database F
  run_with o none db = (none, record_failure o.inserts_failure db)
  run_with o (some r) db =
      persisted o.inserts_failure r (persist_result o.inserts_run o.inserts_drift r db)

  abbrev pub fetched : Job F → F → Option (List (String × F)) → Option (ReconciliationResult F)
  fetched o threshold none = none
  fetched o threshold (some observed) = reconcile_window observed o.reported threshold

  -- `none` is the exception that is raised again.
  unfoldable pub run_from_db : Job F → F → Database F → Option (ReconciliationResult F) × Database F
  run_from_db o threshold db =
      if o.connects then run_with o (fetched o threshold o.observed) db else (none, db)
