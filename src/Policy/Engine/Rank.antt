-- ===== src/Policy/Engine/Rank.antt =====
-- `Decide` acts on the first suggestion that passes its checks, and on nothing else.
use mathlib.Core.Path.{subst}
use mathlib.Core.Option.{some-injective}
use budget_governor.Prelude.{
  ◌≡◌, refl, ◌∙◌, ap, sym, ◌⊎◌, inl, inr, true, String, some, none, List, [], ◌∷◌, ◌++◌, arith, All,
  Option-cases, Bool-cases, eq_iff, str_eq,
}
use mathlib.Core.Bool.{false≢true}
use budget_governor.Prelude.Int.{◌≤ℤ◌, ◌<ℤ◌}
use budget_governor.Prelude.Float.{Float, ◌≼◌}
use budget_governor.Provider.Pricing.{
  PricePerMillion, pricing_table, price_of, cheaper_alternatives,
}
use budget_governor.Provider.Pricing.Cheaper.{
  IsIn, IsBargain, cheaper_alternatives_iff, none-ne-some,
}
use budget_governor.Policy.Engine.{
  SuggestionType, switch_model, reduce_max_tokens, Suggestion, Context, Config, reject,
  retry_with_model, partial_allowance, Outcome, contains, is_verified_cheaper_model, allowance_of,
  act, act_on, returned, keep_note, decide_from, decide,
}

pub contains_sound : (x : String) (ys : List String) → contains x ys ≡ true → IsIn x ys
unfolding contains
contains_sound x [] h = absurd (false≢true h)
contains_sound x (y ∷ ys) h = elim (Bool-cases (str_eq y x)) [
  | inl e ↦ inl ((eq_iff y x).0 e)
  | inr e ↦ inr (contains_sound x ys (rw e at h))
]

partial-ne-retry : partial_allowance ≡ retry_with_model → ⊥
partial-ne-retry h = ground arith

reject-ne-retry : reject ≡ retry_with_model → ⊥
reject-ne-retry h = ground arith

module _ {F : Type 0} ⦃d : Float F⦄ (ctx : Context F) (cfg : Config F) where
  open d use {lt, trunc}

  -- The prices bear the suggestion out.
  abbrev pub IsVerified : String → Type 0
  IsVerified name =
      (base : PricePerMillion F) × (price_of ctx.requested_model ≡ some base)
      × IsBargain ctx.requested_model base name pricing_table

  -- A switch to a cheaper model, or an allowance between the least that is worth granting and what
  -- is left, as the type of the suggestion says.
  abbrev pub IsSound : Suggestion F → SuggestionType → Outcome → Type 0
  IsSound s kind o =
      ((kind ≡ switch_model)
        × (o.action ≡ retry_with_model)
        × (o.model ≡ s.suggested_model)
        × IsVerified o.model)
      ⊎ ((kind ≡ reduce_max_tokens)
          × (o.action ≡ partial_allowance)
          × (cfg.min_partial_allowance_tokens ≤ℤ o.max_tokens)
          × (o.max_tokens ≤ℤ s.suggested_max_tokens)
          × (o.max_tokens ≤ℤ trunc ctx.remaining_tokens)
          × (o.max_tokens <ℤ ctx.requested_tokens))

  is_verified_cheaper_model-IsVerified :
      (name : String)
      → is_verified_cheaper_model F ctx.requested_model name ≡ true
      → IsVerified name
  unfolding is_verified_cheaper_model
  is_verified_cheaper_model-IsVerified name h =
      let listed : contains name (cheaper_alternatives F ctx.requested_model) ≡ true =
        ground arith in
      (cheaper_alternatives_iff ctx.requested_model name).0 (contains_sound name _ listed)

  act_on-IsSound :
      (s : Suggestion F) (kind : SuggestionType) (o : Outcome)
      → act_on ctx cfg s kind ≡ some o
      → IsSound s kind o
  unfolding act_on allowance_of
  act_on-IsSound s switch_model o h =
      elim (Bool-cases (is_verified_cheaper_model F ctx.requested_model s.suggested_model)) [
        | inl e ↦
            subst (IsSound s switch_model) (some-injective _ _ (rw e at h))
              (inl (refl, refl, refl, is_verified_cheaper_model-IsVerified s.suggested_model e))
        | inr e ↦ absurd (none-ne-some (rw e at h))
      ]
  act_on-IsSound s reduce_max_tokens o h = inr (ground arith)
  act_on-IsSound s _ o h = cc

  -- Either some suggestion is the first to be acted on, with this outcome; or none is.
  abbrev pub IsFirst : List (Suggestion F) → Suggestion F → Outcome → Type 0
  IsFirst suggestions s o =
      (before : List (Suggestion F)) × (after : List (Suggestion F)) × (suggestions
        ≡ before ++ s ∷ after)
      × All (λ x. act ctx cfg x ≡ none) before
      × (act ctx cfg s ≡ some o)

  act-IsJustified :
      (s : Suggestion F) (o : Outcome)
      → act ctx cfg s ≡ some o
      → (cfg.min_confidence ≼ s.confidence) × IsSound s s.kind o
  unfolding act
  act-IsJustified s o h = elim (Bool-cases (lt s.confidence cfg.min_confidence)) [
    | inl e ↦ absurd (none-ne-some (rw e at h))
    | inr e ↦ (e, act_on-IsSound s s.kind o (rw e at h))
  ]

  -- The note after all suggestions.
  pub notes : String → List (Suggestion F) → String
  notes note [] = note
  notes note (s ∷ suggestions) = notes (keep_note cfg note s) suggestions

  abbrev pub Ranked : String → List (Suggestion F) → Outcome → Type 0
  Ranked note suggestions o =
      ((s : Suggestion F) × IsFirst suggestions s o
        × (cfg.min_confidence ≼ s.confidence)
        × IsSound s s.kind o)
      ⊎ (All (λ x. act ctx cfg x ≡ none) suggestions
          × (o.action ≡ reject)
          × (o.reason ≡ ctx.fail_reason)
          × (o.advice ≡ notes note suggestions))

  Ranked-cons :
      (note : String) (s : Suggestion F) (suggestions : List (Suggestion F)) (o : Outcome)
      → act ctx cfg s ≡ none
      → Ranked (keep_note cfg note s) suggestions o
      → Ranked note (s ∷ suggestions) o
  unfolding notes
  Ranked-cons note s suggestions o e (inl (x, (before, after, split, skipped, acted), sure, rest)) =
      inl (x, (s ∷ before, after, ap (◌∷◌ s) split, (e, skipped), acted), sure, rest)
  Ranked-cons note s suggestions o e (inr (skipped, a, b, c)) = inr ((e, skipped), a, b, c)

  decide_from-Ranked :
      (note : String) (suggestions : List (Suggestion F))
      → Ranked note suggestions (decide_from ctx cfg note suggestions)
  unfolding decide_from notes
  decide_from-Ranked note [] = inr (tt, refl, refl, refl)
  decide_from-Ranked note (s ∷ suggestions) =
      let rest = decide_from ctx cfg (keep_note cfg note s) suggestions in
      let later = decide_from-Ranked (keep_note cfg note s) suggestions in
      elim (Option-cases (act ctx cfg s)) [
        | inl e ↦
            subst (λ p. Ranked note (s ∷ suggestions) (returned p rest)) (sym e)
              (Ranked-cons note s suggestions rest e later)
        | inr (o, e) ↦
            let (sure, sound) = act-IsJustified s o e in
            subst (λ p. Ranked note (s ∷ suggestions) (returned p rest)) (sym e)
              (inl (s, ([], suggestions, refl, tt, e), sure, sound))
      ]

  pub decide-Ranked :
      (suggestions : List (Suggestion F)) → Ranked "" suggestions (decide ctx suggestions cfg)
  unfolding decide
  decide-Ranked suggestions = decide_from-Ranked "" suggestions

  Ranked-IsVerified :
      (note : String) (suggestions : List (Suggestion F)) (o : Outcome)
      → Ranked note suggestions o
      → o.action ≡ retry_with_model
      → IsVerified o.model
  Ranked-IsVerified note suggestions o (inl (s, _, _, inl (_, _, _, verified))) h = verified
  Ranked-IsVerified note suggestions o (inl (s, _, _, inr (_, e, _, _, _, _))) h =
      absurd (partial-ne-retry (sym e ∙ h))
  Ranked-IsVerified note suggestions o (inr (_, e, _, _)) h = absurd (reject-ne-retry (sym e ∙ h))

  -- A model to which the engine switches is of the same family and cheaper.
  pub decide-IsVerified :
      (suggestions : List (Suggestion F))
      → (decide ctx suggestions cfg).action ≡ retry_with_model
      → IsVerified (decide ctx suggestions cfg).model
  decide-IsVerified suggestions =
      Ranked-IsVerified "" suggestions (decide ctx suggestions cfg) (decide-Ranked suggestions)
