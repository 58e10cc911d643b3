-- ===== src/Services/Reconciliation/Window.antt =====
-- The drifts of a window, and what their totals are.
use mathlib.Core.List.{append_assoc, append-nil}
use budget_governor.Prelude.{
  ◌≡◌, refl, sym, ◌∙◌, String, Bool, false, Option, none, some, List, [], ◌∷◌, ◌++◌, ◌||◌, arith,
  if◌then◌else◌, Bool-cases, Option-cases, inl, inr, ◌⊎◌,
}
use budget_governor.Prelude.Float.{Float}
use budget_governor.Services.Reconciliation.{
  TenantDrift, ReconciliationResult, absolute, detect_drift, add_drift, window_from,
}

or_swap : (a b c : Bool) → ((a || b) || c) ≡ (b || (a || c))
or_swap a b c = ground arith

or_false : (a : Bool) → a ≡ (a || false)
or_false a = ground arith

module _ {F : Type 0} ⦃d : Float F⦄ where
  open d use {add}

  -- One drift for each tenant, from what its provider reports, in the order of the tenants.
  abbrev pub IsDrifts : (String → Option F) → F → List (String × F) → List (TenantDrift F) → Type 0
  IsDrifts reported threshold [] [] = Unit
  IsDrifts reported threshold ((tenant, observed) ∷ rest) (t ∷ ts) =
      ((x : F) × (reported tenant ≡ some x) × (t ≡ detect_drift tenant observed x threshold))
      × IsDrifts reported threshold rest ts
  IsDrifts reported threshold _ _ = ⊥

  abbrev pub exceeding : List (TenantDrift F) → List (TenantDrift F)
  exceeding [] = []
  exceeding (t ∷ ts) = if t.exceeds_threshold then t ∷ exceeding ts else exceeding ts

  abbrev pub any_exceeds : List (TenantDrift F) → Bool
  any_exceeds [] = false
  any_exceeds (t ∷ ts) = t.exceeds_threshold || any_exceeds ts

  -- The sum of the amounts, from the first on.
  abbrev pub total_from : F → List (TenantDrift F) → F
  total_from x [] = x
  total_from x (t ∷ ts) = total_from (add x (absolute t.drift_amount_usd)) ts

  -- The provider of one of the tenants gives no answer.
  abbrev pub FailsFor : (String → Option F) → List (String × F) → Type 0
  FailsFor reported [] = ⊥
  FailsFor reported ((tenant, _) ∷ rest) = (reported tenant ≡ none) ⊎ FailsFor reported rest

  -- The result that the rest of the window adds to one.
  abbrev pub IsAdded :
      (String → Option F)
      → F
      → List (String × F)
      → ReconciliationResult F
      → Option (ReconciliationResult F)
      → Type 0
  IsAdded reported threshold observed r none = FailsFor reported observed
  IsAdded reported threshold observed r (some out) =
      (ts : List (TenantDrift F)) × IsDrifts reported threshold observed ts
      × (out.per_tenant ≡ r.per_tenant ++ ts)
      × (out.drift_detected ≡ (r.drift_detected || any_exceeds ts))
      × (out.total_drift_amount_usd ≡ total_from r.total_drift_amount_usd (exceeding ts))

  total_from-cons :
      (x : F) (t : TenantDrift F) (ts : List (TenantDrift F))
      → total_from
          (if t.exceeds_threshold then add x (absolute t.drift_amount_usd) else x)
          (exceeding ts)
        ≡ total_from x (exceeding (t ∷ ts))
  total_from-cons x t ts = elim (Bool-cases t.exceeds_threshold) [
    | inl e ↦ rw e refl
    | inr e ↦ rw e refl
  ]

  IsAdded-cons :
      (reported : String → Option F) (threshold : F) (tenant : String) (x y : F)
      (rest : List (String × F)) (r : ReconciliationResult F) (o : Option (ReconciliationResult F))
      → reported tenant ≡ some y
      → IsAdded reported threshold rest (add_drift (detect_drift tenant x y threshold) r) o
      → IsAdded reported threshold ((tenant, x) ∷ rest) r o
  IsAdded-cons reported threshold tenant x y rest r none e h = inr h
  IsAdded-cons reported threshold tenant x y rest r (some out) e (ts, drifts, p, q, s) =
      let t = detect_drift tenant x y threshold in
      (
        t ∷ ts,
        ((y, e, refl), drifts),
        p ∙ append_assoc r.per_tenant (t ∷ []) ts,
        q ∙ or_swap t.exceeds_threshold r.drift_detected (any_exceeds ts),
        s ∙ total_from-cons r.total_drift_amount_usd t ts,
      )

  pub window_from-IsAdded :
      (reported : String → Option F) (threshold : F) (observed : List (String × F))
      (r : ReconciliationResult F)
      → IsAdded reported threshold observed r (window_from reported threshold observed r)
  unfolding window_from
  window_from-IsAdded reported threshold [] r =
      ([], tt, sym (append-nil r.per_tenant), or_false r.drift_detected, refl)
  window_from-IsAdded reported threshold ((tenant, x) ∷ rest) r =
      elim (Option-cases (reported tenant)) [
        | inl e ↦ rw (e, window_from) (inl e)
        | inr (y, e) ↦
            rw (e, window_from)
              (IsAdded-cons reported threshold tenant x y rest r _ e
                (window_from-IsAdded reported threshold rest _))
      ]
