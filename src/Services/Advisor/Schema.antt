-- ===== src/Services/Advisor/Schema.antt =====
-- What the schema of the advisor lets through.
use budget_governor.Prelude.{
  ℕ, suc, ◌≤◌, ◌≡◌, refl, true, Option, none, some, List, [], ◌∷◌, arith, leb, length, All, inl,
  inr, Bool-cases, if-both, ap,
}
use budget_governor.Prelude.Int.{pos}
use budget_governor.Prelude.Float.{Float, nought, ◌≼◌}
use budget_governor.Services.Advisor.{
  Kind, RawSuggestion, Suggestion, characters, is_positive, in_bounds, with_kind, validate_one,
  add_valid, validate_all, is_meaningful, validate_cross_fields, crossed, model_validate, or_empty,
  kind_of,
}

module _ {F : Type 0} ⦃d : Float F⦄ where
  open d use {of_int}

  -- What the schema asks for.
  pub record IsSuggestion (s : Suggestion F) : Type 0 where
    pub sure : nought ≼ s.confidence
    pub possible : s.confidence ≼ of_int (pos 1)
    pub brief : characters s.risk_note ≤ 500
    pub positive : is_positive s.suggested_max_tokens ≡ true

  validate_one-IsSuggestion :
      (s : RawSuggestion F) (k : Kind)
      → in_bounds s ≡ true
      → IsSuggestion (record {
        kind = k;
        suggested_model = s.raw_model;
        suggested_max_tokens = s.raw_max_tokens;
        confidence = s.raw_confidence;
        risk_note = s.raw_note;
      })
  unfolding in_bounds
  validate_one-IsSuggestion s k h = record {
    sure = ground (arith, h);
    possible = ground (arith, h);
    brief = ground (arith, h);
    positive = ground (arith, h);
  }

  abbrev IsValidated : ℕ → Option (List (Suggestion F)) → Type 0
  IsValidated n none = Unit
  IsValidated n (some ss) = All IsSuggestion ss × (length ss ≡ n)

  abbrev IsValidatedOne : Option (Suggestion F) → Type 0
  IsValidatedOne none = Unit
  IsValidatedOne (some s) = IsSuggestion s

  with_kind-IsValidatedOne :
      (s : RawSuggestion F) (k : Option Kind) → in_bounds s ≡ true → IsValidatedOne (with_kind s k)
  with_kind-IsValidatedOne s none h = tt
  with_kind-IsValidatedOne s (some k) h = validate_one-IsSuggestion s k h

  validate_one-IsValidatedOne : (s : RawSuggestion F) → IsValidatedOne (validate_one s)
  unfolding validate_one
  validate_one-IsValidatedOne s =
      if-both IsValidatedOne (in_bounds s) _ _ (with_kind-IsValidatedOne s (kind_of s.type_text))
        (λ _. tt)

  add_valid-IsValidated :
      (n : ℕ) (s : Option (Suggestion F)) (ss : Option (List (Suggestion F)))
      → IsValidatedOne s
      → IsValidated n ss
      → IsValidated (suc n) (add_valid s ss)
  add_valid-IsValidated n none ss h k = tt
  add_valid-IsValidated n (some s) none h k = tt
  add_valid-IsValidated n (some s) (some ss) h k = ((h, k.0), ap suc k.1)

  validate_all-IsValidated :
      (ss : List (RawSuggestion F)) → IsValidated (length ss) (validate_all ss)
  unfolding validate_all
  validate_all-IsValidated [] = (tt, refl)
  validate_all-IsValidated (s ∷ ss) =
      add_valid-IsValidated (length ss) (validate_one s) (validate_all ss)
        (validate_one-IsValidatedOne s) (validate_all-IsValidated ss)

  -- What the schema lets through.
  abbrev pub IsAllowed : List (Suggestion F) → Type 0
  IsAllowed ss = All (λ s. IsSuggestion s × (is_meaningful s ≡ true)) ss × (length ss ≤ 3)

  cross_fields-lem :
      (ss : List (Suggestion F))
      → All IsSuggestion ss
      → let out = validate_cross_fields ss in
        All (λ s. IsSuggestion s × (is_meaningful s ≡ true)) out × (length out ≤ length ss)
  unfolding validate_cross_fields
  cross_fields-lem [] h = (tt, omega arith)
  cross_fields-lem (s ∷ ss) (h, hs) =
      let (a, l) = cross_fields-lem ss hs in
      elim (Bool-cases (is_meaningful s)) [
        | inl e ↦ rw e (((h, e), a), omega (arith, l))
        | inr e ↦ rw e (a, omega (arith, l))
      ]

  crossed-IsAllowed :
      (n : ℕ) (o : Option (List (Suggestion F)))
      → n ≤ 3
      → IsValidated n o
      → IsAllowed (or_empty (crossed o))
  crossed-IsAllowed n none h v = (tt, omega arith)
  crossed-IsAllowed n (some ss) h (v, l) =
      let (a, k) = cross_fields-lem ss v in (a, omega (arith, h, l, k))

  pub model_validate-IsAllowed :
      (ss : List (RawSuggestion F)) → IsAllowed (or_empty (model_validate ss))
  unfolding model_validate
  model_validate-IsAllowed ss =
      if-both (λ o. IsAllowed (or_empty o)) (leb (length ss) 3) _ _
        (λ h.
          crossed-IsAllowed (length ss) (validate_all ss) (ground (arith, h))
            (validate_all-IsValidated ss))
        (λ _. (tt, omega arith))
