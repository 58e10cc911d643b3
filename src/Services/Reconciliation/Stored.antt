-- ===== src/Services/Reconciliation/Stored.antt =====
-- The rows that the drifts of a run leave.
use mathlib.Core.List.{append_assoc, append-nil}
use mathlib.Core.Bool.{false≢true}
use budget_governor.Prelude.{
  ℕ, ◌≡◌, refl, sym, ◌∙◌, ap, Bool, true, false, List, [], ◌∷◌, ◌++◌, map, if-both, inl, inr, ◌⊎◌,
}
use budget_governor.Prelude.Float.{Float}
use budget_governor.Services.Reconciliation.{TenantDrift, DriftRow, Database, persist_drifts}
use budget_governor.Services.Reconciliation.Window.{exceeding}

module _ {F : Type 0} ⦃d : Float F⦄ where
  open d use {add}

  abbrev pub rows_of : ℕ → List (TenantDrift F) → List (DriftRow F)
  rows_of run ts = map (λ (t : TenantDrift F). record { of_run = run; drift = t }) ts

  -- The insert of one of the drifts over the threshold fails.
  abbrev pub IsRejected : (TenantDrift F → Bool) → List (TenantDrift F) → Type 0
  IsRejected ok [] = ⊥
  IsRejected ok (t ∷ ts) = ((t.exceeds_threshold ≡ true) × (ok t ≡ false)) ⊎ IsRejected ok ts

  -- Some of the drifts over the threshold, from the first on, have a row each, and all of them where no
  -- insert failed.
  abbrev pub IsStored :
      (TenantDrift F → Bool) → ℕ → List (TenantDrift F) → Database F → Bool × Database F → Type 0
  IsStored ok run ts db (fine, db') =
      (stored : List (TenantDrift F)) × (left : List (TenantDrift F)) × (exceeding ts
        ≡ stored ++ left)
      × (db'.drifts ≡ db.drifts ++ rows_of run stored)
      × (db'.runs ≡ db.runs)
      × ((fine ≡ true) → left ≡ [])
      × ((fine ≡ false) → IsRejected ok ts)

  abbrev row : ℕ → TenantDrift F → DriftRow F
  row run t = record { of_run = run; drift = t }

  exceeding-hit :
      (t : TenantDrift F) (ts : List (TenantDrift F))
      → t.exceeds_threshold ≡ true
      → exceeding (t ∷ ts) ≡ t ∷ exceeding ts
  exceeding-hit t ts e = simp e

  exceeding-miss :
      (t : TenantDrift F) (ts : List (TenantDrift F))
      → t.exceeds_threshold ≡ false
      → exceeding (t ∷ ts) ≡ exceeding ts
  exceeding-miss t ts e = simp e

  IsStored-cons :
      (ok : TenantDrift F → Bool) (run : ℕ) (t : TenantDrift F) (ts : List (TenantDrift F))
      (db : Database F) (p : Bool × Database F)
      → t.exceeds_threshold ≡ true
      → IsStored ok run ts (record db { drifts = db.drifts ++ row run t ∷ [] }) p
      → IsStored ok run (t ∷ ts) db p
  IsStored-cons ok run t ts db (fine, db') e (stored, left, a, b, c, f, g) = (
    t ∷ stored,
    left,
    exceeding-hit t ts e ∙ ap (◌∷◌ t) a,
    b ∙ append_assoc db.drifts (row run t ∷ []) (rows_of run stored),
    c,
    f,
    λ h. inr (g h),
  )

  pub persist_drifts-IsStored :
      (ok : TenantDrift F → Bool) (run : ℕ) (ts : List (TenantDrift F)) (db : Database F)
      → IsStored ok run ts db (persist_drifts ok run ts db)
  unfolding persist_drifts
  persist_drifts-IsStored ok run [] db =
      ([], [], refl, sym (append-nil db.drifts), refl, λ _. refl, λ h. absurd (false≢true (sym h)))
  persist_drifts-IsStored ok run (t ∷ ts) db =
      let rest = persist_drifts-IsStored ok run ts db in
      let stored =
        persist_drifts-IsStored ok run ts (record db { drifts = db.drifts ++ row run t ∷ [] }) in
      if-both (IsStored ok run (t ∷ ts) db) t.exceeds_threshold _ _
        (λ e.
          if-both (IsStored ok run (t ∷ ts) db) (ok t) _ _
            (λ _.
              IsStored-cons ok run t ts db
                (persist_drifts ok run ts (record db { drifts = db.drifts ++ row run t ∷ [] })) e
                stored)
            (λ e'. (
              [],
              exceeding (t ∷ ts),
              refl,
              sym (append-nil db.drifts),
              refl,
              λ h. absurd (false≢true h),
              λ _. inl (e, e'),
            )))
        (λ e.
          let (done, left, a, b, c, f, g) = rest in
          (done, left, exceeding-miss t ts e ∙ a, b, c, f, λ h. inr (g h)))
