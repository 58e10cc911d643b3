-- ===== src/Services/Advisor/Heeded.antt =====
-- What the gateway makes of the answer of the advisor: gateway/internal/proxy/advisor_client.go and
-- policy.go behind advisor/app.
use budget_governor.Prelude.{
  ◌≡◌, refl, String, true, false, Option, some, List, ◌∷◌, All, ap, ◌∙◌, none, if-both,
}
use mathlib.Core.Path.{subst}
use budget_governor.Prelude.Float.{Float}
use budget_governor.Policy.Engine.{
  retry_with_model, Context, Config, act, act_on, retry, decide_from, decide,
  is_verified_cheaper_model,
}
use budget_governor.Proxy.Advisor.{
  AdviseSuggestion, answer, advise, suggestion_type, suggestions_of,
}
use budget_governor.Proxy.Pressure.{advised}
use budget_governor.Prelude.Int.{pos}
use budget_governor.Services.Advisor.{
  Kind, switch_model, reduce_max_tokens, summarize_first, reduce_tool_calls, RawSuggestion,
  Suggestion, kind_text, Loaded, get_suggestions, sent, fits, read_as, and_then, text_or_empty,
  number_or_zero,
}
use budget_governor.Services.Advisor.Guarded.{IsBacked, IsFit, IsAnswer, get_suggestions-IsGuarded}
use budget_governor.Policy.Engine

abbrev of_kind : Kind → Engine.SuggestionType
of_kind switch_model = Engine.switch_model
of_kind reduce_max_tokens = Engine.reduce_max_tokens
of_kind summarize_first = Engine.summarize_first
of_kind reduce_tool_calls = Engine.reduce_tool_calls

-- The gateway knows each type by its text.
suggestion_type-kind_text : (k : Kind) → suggestion_type (kind_text k) ≡ of_kind k
unfolding suggestion_type kind_text
suggestion_type-kind_text switch_model = refl
suggestion_type-kind_text reduce_max_tokens = refl
suggestion_type-kind_text summarize_first = refl
suggestion_type-kind_text reduce_tool_calls = refl

and_then-first :
    {F : Type 0} (x : AdviseSuggestion F) (o : Option (List (AdviseSuggestion F)))
    (decoded : List (AdviseSuggestion F))
    → and_then x o ≡ some decoded
    → (rest : List (AdviseSuggestion F)) × (decoded ≡ x ∷ rest)
and_then-first x none decoded h = cc (h)
and_then-first x (some xs) decoded h = (xs, cc (h))

sent-first :
    {F : Type 0} (s : Suggestion F) (ss : List (Suggestion F)) (decoded : List (AdviseSuggestion F))
    → sent (s ∷ ss) ≡ some decoded
    → (rest : List (AdviseSuggestion F)) × (decoded ≡ read_as s ∷ rest)
unfolding sent
sent-first s ss decoded =
    if-both
      (λ o. o ≡ some decoded → (rest : List (AdviseSuggestion _)) × (decoded ≡ read_as s ∷ rest))
      (fits s.suggested_max_tokens) _ _ (λ _ h. and_then-first (read_as s) (sent ss) decoded h)
      (λ _ h. cc (h))

module _ {F : Type 0} ⦃d : Float F⦄ (ctx : Context F) (cfg : Config F) where
  open d use {lt}

  act-switch :
      (s : Engine.Suggestion F)
      → lt s.confidence cfg.min_confidence ≡ false
      → s.kind ≡ Engine.switch_model
      → is_verified_cheaper_model F ctx.requested_model s.suggested_model ≡ true
      → act ctx cfg s ≡ some (retry s)
  unfolding act act_on
  act-switch s sure k v = rw (sure, k, act_on, v)

  -- What the gateway does with the list that the advisor sends with status 200.
  abbrev pub chosen : List (Suggestion F) → Engine.Outcome
  chosen ss = decide ctx (advised (advise (answer (pos 200) (sent ss)))) cfg

  -- A switch to a model that the engine verifies is made at once.
  decide-switch :
      (s : Suggestion F) (ss : List (Suggestion F)) (m : String)
      (decoded : List (AdviseSuggestion F))
      → sent (s ∷ ss) ≡ some decoded
      → s.kind ≡ switch_model
      → s.suggested_model ≡ some m
      → lt s.confidence cfg.min_confidence ≡ false
      → is_verified_cheaper_model F ctx.requested_model m ≡ true
      → ((chosen (s ∷ ss)).action ≡ retry_with_model) × ((chosen (s ∷ ss)).model ≡ m)
  unfolding decide decide_from act act_on suggestions_of advise advised
  decide-switch s ss m decoded whole k e sure v =
      let s' : Engine.Suggestion F = record {
        kind = suggestion_type (kind_text s.kind);
        suggested_model = text_or_empty s.suggested_model;
        suggested_max_tokens = number_or_zero s.suggested_max_tokens;
        confidence = s.confidence;
        risk_note = s.risk_note;
      } in
      let named : text_or_empty s.suggested_model ≡ m = ap text_or_empty e in
      let switch = suggestion_type-kind_text s.kind ∙ ap of_kind k in
      let (rest, split) = sent-first s ss decoded whole in
      rw (whole, split, act-switch s' sure switch (rw named v)) (refl, named)

  module _ {J : Type 0} (loads : String → Loaded J)
      (typed : J → Option (List (RawSuggestion F))) where
    -- If the advisor suggests first to switch the model, as sure as the policy asks for, and each of its
    -- numbers of tokens fits into 64 bits, so that the gateway can decode the whole answer, then the
    -- policy engine chooses a retry with the model that the advisor named.
    pub decide-get_suggestions :
        (completion : Option String) (s : Suggestion F) (ss : List (Suggestion F))
        (decoded : List (AdviseSuggestion F))
        → get_suggestions loads typed ctx.requested_model completion ≡ some (s ∷ ss)
        → sent (s ∷ ss) ≡ some decoded
        → s.kind ≡ switch_model
        → lt s.confidence cfg.min_confidence ≡ false
        → (m : String) × (s.suggested_model ≡ some m)
          × ((chosen (s ∷ ss)).action ≡ retry_with_model)
          × ((chosen (s ∷ ss)).model ≡ m)
    decide-get_suggestions completion s ss decoded e whole k sure =
        let ((_, backed), _) : All (IsFit ctx.requested_model) (s ∷ ss) =
          (subst (IsAnswer loads typed ctx.requested_model completion) e
            (get_suggestions-IsGuarded loads typed ctx.requested_model completion)).0 in
        let (m, e', v) : IsBacked F ctx.requested_model switch_model s.suggested_model
            s.suggested_max_tokens =
          subst (λ x. IsBacked F ctx.requested_model x s.suggested_model s.suggested_max_tokens) k
            backed in
        let (p, q) = decide-switch s ss m decoded whole k e' sure v in (m, e', p, q)
