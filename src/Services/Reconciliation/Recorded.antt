-- ===== src/Services/Reconciliation/Recorded.antt =====
-- What a run of the drift job leaves in the database.
use mathlib.Core.List.{append-nil}
use mathlib.Core.Path.{subst}
use budget_governor.Prelude.{
  ℕ, ◌≡◌, refl, sym, ◌∙◌, ap, String, Bool, true, false, Option, none, some, List, [], ◌∷◌, ◌++◌,
  map, if-both, Option-cases, inl, inr, ◌⊎◌,
}
use budget_governor.Prelude.Float.{Float, nought}
use budget_governor.Services.Reconciliation.{
  TenantDrift, ReconciliationResult, RunRow, DriftRow, Database, Job, reconcile_window, insert_run,
  persist_result, record_failure, persisted, run_with, fetched, run_from_db,
}
use budget_governor.Services.Reconciliation.Window.{
  IsDrifts, exceeding, any_exceeds, total_from, FailsFor, IsAdded, window_from-IsAdded,
}
use budget_governor.Services.Reconciliation.Stored.{
  rows_of, IsRejected, IsStored, persist_drifts-IsStored,
}

module _ {F : Type 0} ⦃d : Float F⦄ where
  abbrev empty_result : ReconciliationResult F
  empty_result = record { drift_detected = false; total_drift_amount_usd = nought; per_tenant = [] }

  -- The row of a run.
  abbrev pub run_row : ℕ → Bool → Bool → F → RunRow F
  run_row n completed detected amount = record {
    run_id = n;
    completed = completed;
    run_drift_detected = detected;
    drift_amount = amount;
  }

  -- The job ended well: the result is that of the window, and its run and its drifts are stored.
  abbrev pub IsRecorded : Job F → F → Database F → ReconciliationResult F → Database F → Type 0
  IsRecorded o threshold db r db' =
      (observed : List (String × F)) × (o.observed ≡ some observed)
      × IsDrifts o.reported threshold observed r.per_tenant
      × (r.drift_detected ≡ any_exceeds r.per_tenant)
      × (r.total_drift_amount_usd ≡ total_from nought (exceeding r.per_tenant))
      × (db'.runs
          ≡ db.runs ++ run_row db.next_id true r.drift_detected r.total_drift_amount_usd ∷ [])
      × (db'.drifts
          ≡ db.drifts
            ++ map (λ (t : TenantDrift F). record { of_run = db.next_id; drift = t })
                (exceeding r.per_tenant))

  abbrev failure_rows : Bool → ℕ → List (RunRow F)
  failure_rows true n = run_row n false false nought ∷ []
  failure_rows false n = []

  -- What made the job fail: a query, a provider, the insert of the run, or that of a drift.
  abbrev pub IsCause : Job F → F → Type 0
  IsCause o threshold =
      (o.observed ≡ none)
      ⊎ ((observed : List (String × F)) × (o.observed ≡ some observed)
          × (FailsFor o.reported observed
              ⊎ ((r : ReconciliationResult F) × (reconcile_window observed o.reported threshold
                    ≡ some r)
                  × ((o.inserts_run ≡ false) ⊎ IsRejected o.inserts_drift r.per_tenant))))

  -- The job failed for a cause: rows were only added, and behind them one of a run that was not
  -- completed, unless its insert failed too.
  abbrev pub IsFailed : Job F → F → Database F → Database F → Type 0
  IsFailed o threshold db db' =
      IsCause o threshold
      × (runs : List (RunRow F)) × (drifts : List (DriftRow F)) × (n : ℕ) × (db'.runs
          ≡ (db.runs ++ runs) ++ failure_rows o.inserts_failure n)
      × (db'.drifts ≡ db.drifts ++ drifts)

  abbrev pub IsRun : Job F → F → Database F → Option (ReconciliationResult F) × Database F → Type 0
  IsRun o threshold db (some r, db') = IsRecorded o threshold db r db'
  IsRun o threshold db (none, db') = IsFailed o threshold db db'

  -- Without a connection nothing is written.
  abbrev pub IsJob : Job F → F → Database F → Option (ReconciliationResult F) × Database F → Type 0
  IsJob o threshold db (some r, db') = (o.connects ≡ true) × IsRecorded o threshold db r db'
  IsJob o threshold db (none, db') =
      ((o.connects ≡ false) × (db' ≡ db)) ⊎ ((o.connects ≡ true) × IsFailed o threshold db db')

  window-IsDrifts :
      (o : Job F) (threshold : F) (observed : List (String × F)) (r : ReconciliationResult F)
      → reconcile_window observed o.reported threshold ≡ some r
      → IsDrifts o.reported threshold observed r.per_tenant
        × (r.drift_detected ≡ any_exceeds r.per_tenant)
        × (r.total_drift_amount_usd ≡ total_from nought (exceeding r.per_tenant))
  unfolding reconcile_window
  window-IsDrifts o threshold observed r h =
      let (ts, drifts, p, q, s) : IsAdded o.reported threshold observed empty_result (some r) =
        subst (IsAdded o.reported threshold observed empty_result) h
          (window_from-IsAdded o.reported threshold observed empty_result) in
      rw p (drifts, q, s)

  window-fails :
      (o : Job F) (threshold : F) (observed : List (String × F))
      → reconcile_window observed o.reported threshold ≡ none
      → FailsFor o.reported observed
  unfolding reconcile_window
  window-fails o threshold observed h =
      subst (IsAdded o.reported threshold observed empty_result) h
        (window_from-IsAdded o.reported threshold observed empty_result)

  record_failure-rows :
      (ok : Bool) (db : Database F)
      → ((record_failure ok db).runs ≡ db.runs ++ failure_rows ok db.next_id)
        × ((record_failure ok db).drifts ≡ db.drifts)
  unfolding record_failure insert_run
  record_failure-rows true db = (refl, refl)
  record_failure-rows false db = (sym (append-nil db.runs), refl)

  record_failure-IsFailed :
      (o : Job F) (threshold : F) (db mid : Database F) (runs : List (RunRow F))
      (drifts : List (DriftRow F))
      → mid.runs ≡ db.runs ++ runs
      → mid.drifts ≡ db.drifts ++ drifts
      → IsCause o threshold
      → IsFailed o threshold db (record_failure o.inserts_failure mid)
  record_failure-IsFailed o threshold db mid runs drifts e e' cause =
      let (a, b) = record_failure-rows o.inserts_failure mid in
      (
        cause,
        runs,
        drifts,
        mid.next_id,
        a ∙ ap (λ l. l ++ failure_rows o.inserts_failure mid.next_id) e,
        b ∙ e',
      )

  module _ (o : Job F) (threshold : F) (db : Database F) where
    none-IsRun :
        IsCause o threshold → IsRun o threshold db (none, record_failure o.inserts_failure db)
    none-IsRun =
        record_failure-IsFailed o threshold db db [] [] (sym (append-nil db.runs))
          (sym (append-nil db.drifts))

    module _ (observed : List (String × F)) (e : o.observed ≡ some observed)
        (r : ReconciliationResult F)
        (h : reconcile_window observed o.reported threshold ≡ some r) where
      begun : Database F
      begun = insert_run true r.drift_detected r.total_drift_amount_usd db

      persisted-IsRun :
          (p : Bool × Database F)
          → IsStored o.inserts_drift db.next_id r.per_tenant begun p
          → IsRun o threshold db (persisted o.inserts_failure r p)
      unfolding begun insert_run
      persisted-IsRun (true, db') (stored, left, a, b, c, f, g) =
          let (drifts, any, total) = window-IsDrifts o threshold observed r h in
          let all : exceeding r.per_tenant ≡ stored =
            a ∙ ap (λ l. stored ++ l) (f refl) ∙ append-nil stored in
          (
            observed,
            e,
            drifts,
            any,
            total,
            c,
            b ∙ ap (λ l. db.drifts ++ rows_of db.next_id l) (sym all),
          )
      persisted-IsRun (false, db') (stored, left, a, b, c, f, g) =
          record_failure-IsFailed o threshold db db' _ _ c b
            (inr (observed, e, inr (r, h, inr (g refl))))

      run_with-IsRun : IsRun o threshold db (run_with o (some r) db)
      unfolding persist_result begun
      run_with-IsRun =
          if-both (λ p. IsRun o threshold db (persisted o.inserts_failure r p)) o.inserts_run _ _
            (λ _.
              persisted-IsRun _
                (persist_drifts-IsStored o.inserts_drift db.next_id r.per_tenant begun))
            (λ e'. none-IsRun (inr (observed, e, inr (r, h, inl e'))))

    fetched-IsRun :
        (x : Option (List (String × F)))
        → o.observed ≡ x
        → IsRun o threshold db (run_with o (fetched o threshold x) db)
    fetched-IsRun none e = none-IsRun (inl e)
    fetched-IsRun (some observed) e =
        elim (Option-cases (reconcile_window observed o.reported threshold)) [
          | inl h ↦ rw h (none-IsRun (inr (observed, e, inl (window-fails o threshold observed h))))
          | inr (r, h) ↦ rw h (run_with-IsRun observed e r h)
        ]

    connected :
        o.connects ≡ true
        → (x : Option (ReconciliationResult F) × Database F) → IsRun o threshold db x
        → IsJob o threshold db x
    connected up (some r, db') h = (up, h)
    connected up (none, db') h = inr (up, h)

    -- A run of the job either gives a result, with one drift for each tenant in order, which says
    -- whether any drift exceeds the threshold and adds up those that do; and then the database has one
    -- more run, with these two, and a row for each drift over the threshold, under that run, and no
    -- other. Or the database cannot be reached, and nothing is written. Or the job fails because of a
    -- query, of a provider or of an insert: then rows were only added, and behind them a run that was
    -- not completed, unless its own insert failed.
    pub run_from_db-IsRun : IsJob o threshold db (run_from_db o threshold db)
    unfolding run_from_db
    run_from_db-IsRun =
        if-both (IsJob o threshold db) o.connects _ _
          (λ up. connected up _ (fetched-IsRun o.observed refl)) (λ down. inl (down, refl))
