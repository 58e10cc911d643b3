-- ===== src/Services/Advisor/Guarded.antt =====
-- What leaves the advisor, whatever the language model answers.
use budget_governor.Prelude.{
  ◌≤◌, ◌≡◌, refl, String, Bool, true, false, Option, none, some, List, [], ◌∷◌, arith, length, All,
  inl, inr, Bool-cases, str_eq, not, ◌&&◌, ◌≢◌, eq_iff,
}
use mathlib.Core.Path.{subst}
use budget_governor.Prelude.Int.{ℤ, pos, ◌<ℤ◌}
use budget_governor.Prelude.Float.{Float}
use budget_governor.Services.Advisor.{
  Kind, switch_model, reduce_max_tokens, summarize_first, reduce_tool_calls, RawSuggestion,
  Suggestion, is_positive, means, is_meaningful, seen_kind, is_cheaper_switch, guard_from,
  apply_guardrails, typed_list, Loaded, parsed, not_json, raised, loaded, guarded, parse_llm_output,
  get_suggestions,
}
use budget_governor.Services.Pricing.{cheaper_alternatives as alternatives}
use budget_governor.Services.Pricing.Mirror.{cheaper_alternatives-eq}
use budget_governor.Provider.Pricing.{PricePerMillion, Table, pricing_table}
use budget_governor.Provider.Pricing.Cheaper.{IsEntry, cheaper_alternatives_iff}
use budget_governor.Policy.Engine.Rank.{contains_sound}
use budget_governor.Services.Advisor.Schema.{IsSuggestion, IsAllowed, model_validate-IsAllowed}
use budget_governor.Policy.Engine.{contains, is_verified_cheaper_model}

module _ (F : Type 0) ⦃d : Float F⦄ where
  -- A switch names a model that the gateway too takes for a cheaper one, and a smaller reply has a size.
  abbrev pub IsBacked : String → Kind → Option String → Option ℤ → Type 0
  IsBacked requested switch_model model tokens =
      (m : String) × (model ≡ some m) × (is_verified_cheaper_model F requested m ≡ true)
  IsBacked requested reduce_max_tokens model tokens = (n : ℤ) × (tokens ≡ some n) × (pos 0 <ℤ n)
  IsBacked requested _ model tokens = Unit

-- Every model of the price table has a name.
all_named : {F : Type 0} → Table F → Bool
all_named [] = true
all_named ((name, p) ∷ table) = not (str_eq name "") && all_named table

IsEntry-named :
    {F : Type 0} ⦃d : Float F⦄ (name : String) (p : PricePerMillion F) (table : Table F)
    → all_named table ≡ true
    → IsEntry name p table
    → str_eq name "" ≡ false
unfolding all_named
IsEntry-named name p [] h k = absurd k
IsEntry-named name p (e ∷ table) h (inl (n, _)) =
    subst (λ x. str_eq x "" ≡ false) n (ground (arith, h))
IsEntry-named name p (e ∷ table) h (inr k) = IsEntry-named name p table (ground (arith, h)) k

ne-str_eq : (x y : String) → x ≢ y → str_eq x y ≡ false
ne-str_eq x y h = elim (Bool-cases (str_eq x y)) [
  | inl same ↦ absurd (h ((eq_iff x y).0 same))
  | inr other ↦ other
]

module _ (F : Type 0) ⦃d : Float F⦄ where
  table_named : all_named (pricing_table {F = F}) ≡ true
  unfolding all_named pricing_table
  table_named = refl

  verified :
      (requested m : String)
      → contains m (alternatives F requested) ≡ true
      → is_verified_cheaper_model F requested m ≡ true
  unfolding is_verified_cheaper_model
  verified requested m h =
      let listed = rw (cheaper_alternatives-eq F requested) at h in
      let (base, _, (p, entry, (other, _, _))) =
        (cheaper_alternatives_iff requested m).0 (contains_sound m _ listed) in
      rw (IsEntry-named m p pricing_table table_named entry, ne-str_eq m requested other) listed

  backed :
      (requested : String) (k : Kind) (m : Option String) (n : Option ℤ)
      → is_cheaper_switch F requested k m ≡ true
      → means k m n ≡ true
      → is_positive n ≡ true
      → IsBacked F requested k m n
  backed requested switch_model none n c e p = cc (c)
  backed requested switch_model (some m) n c e p = (m, refl, verified requested m c)
  backed requested reduce_max_tokens m none c e p = cc (e)
  backed requested reduce_max_tokens m (some n) c e p = (n, refl, ground (arith, p))
  backed requested summarize_first m n c e p = tt
  backed requested reduce_tool_calls m n c e p = tt

module _ {F : Type 0} ⦃d : Float F⦄ where
  abbrev pub IsFit : String → Suggestion F → Type 0
  IsFit requested s =
      IsSuggestion s × IsBacked F requested s.kind s.suggested_model s.suggested_max_tokens

  -- No two suggestions are of one type, and none is of a type of the list.
  abbrev pub IsNew : List Kind → List (Suggestion F) → Type 0
  IsNew seen [] = Unit
  IsNew seen (s ∷ ss) = (seen_kind s.kind seen ≡ false) × IsNew (s.kind ∷ seen) ss

  -- What the guardrails leave of a list that the schema let through.
  guard_from-lem :
      (requested : String) (seen : List Kind) (ss : List (Suggestion F))
      → All (λ s. IsSuggestion s × (is_meaningful s ≡ true)) ss
      → let out = guard_from requested seen ss in
        All (IsFit requested) out × IsNew seen out × (length out ≤ length ss)
  unfolding guard_from is_meaningful
  guard_from-lem requested seen [] h = (tt, tt, omega arith)
  guard_from-lem requested seen (s ∷ ss) ((h, e), hs) =
      let (a, n, l) = guard_from-lem requested seen ss hs in
      let (a', n', l') = guard_from-lem requested (s.kind ∷ seen) ss hs in
      elim (Bool-cases (seen_kind s.kind seen)) [
        | inl old ↦ rw old (a, n, omega (arith, l))
        | inr new ↦ elim (Bool-cases (is_cheaper_switch F requested s.kind s.suggested_model)) [
          | inl c ↦
              rw (new, c)
                (
                  (
                    (
                      h,
                      backed F requested s.kind s.suggested_model s.suggested_max_tokens c e
                          h.positive,
                    ),
                    a',
                  ),
                  (new, n'),
                  omega (arith, l'),
                )
          | inr c ↦ rw (new, c) (a, n, omega (arith, l))
        ]
      ]

  -- The whole answer to the gateway.
  abbrev pub IsGuarded : String → List (Suggestion F) → Type 0
  IsGuarded requested out = All (IsFit requested) out × IsNew [] out × (length out ≤ 3)

  apply_guardrails-IsGuarded :
      (requested : String) (ss : List (Suggestion F))
      → IsAllowed ss
      → IsGuarded requested (apply_guardrails requested ss)
  unfolding apply_guardrails
  apply_guardrails-IsGuarded requested ss (h, l) =
      let (a, n, k) = guard_from-lem requested [] ss h in (a, n, omega (arith, l, k))

  typed_list-IsAllowed : (o : Option (List (RawSuggestion F))) → IsAllowed (typed_list o)
  typed_list-IsAllowed none = (tt, omega arith)
  typed_list-IsAllowed (some ss) = model_validate-IsAllowed ss

  module _ {J : Type 0} (loads : String → Loaded J)
      (typed : J → Option (List (RawSuggestion F))) where
    -- No answer comes only from an exception of json.loads that is not caught.
    abbrev pub IsAnswer : String → Option String → Option (List (Suggestion F)) → Type 0
    IsAnswer requested completion none =
        (raw_text : String) × (completion ≡ some raw_text) × (loads raw_text ≡ raised)
    IsAnswer requested completion (some out) = IsGuarded requested out

    loaded-IsAnswer :
        (requested raw_text : String) (x : Loaded J)
        → loads raw_text ≡ x
        → IsAnswer requested (some raw_text) (guarded loads typed requested (loaded loads typed x))
    loaded-IsAnswer requested raw_text (parsed j) e =
        apply_guardrails-IsGuarded requested _ (typed_list-IsAllowed (typed j))
    loaded-IsAnswer requested raw_text not_json e =
        apply_guardrails-IsGuarded requested [] (tt, omega arith)
    loaded-IsAnswer requested raw_text raised e = (raw_text, refl, e)

    -- Whatever the language model does, also if it fails or gives no JSON, the advisor answers with at
    -- most three suggestions, no two of one type, unless json.loads raises another exception than
    -- JSONDecodeError and TypeError on its text. Each suggestion has a confidence between zero and one
    -- and a note of at most 500 characters; one that switches the model names a model that the policy
    -- engine of the gateway, too, takes for a cheaper one; and one that reduces the tokens names a
    -- positive number of them.
    pub get_suggestions-IsGuarded :
        (requested : String) (completion : Option String)
        → IsAnswer requested completion (get_suggestions loads typed requested completion)
    unfolding get_suggestions parse_llm_output
    get_suggestions-IsGuarded requested none = (tt, tt, omega arith)
    get_suggestions-IsGuarded requested (some raw_text) =
        loaded-IsAnswer requested raw_text (loads raw_text) refl
