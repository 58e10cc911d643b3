-- ===== src/Proxy/Router.antt =====
-- gateway/internal/proxy/router.go.
use Prim.Native.Char.{Char, code}
use Prim.Native.String
use text.Mathlib.Text.{starts_with}
use text.Mathlib.TextEquality.{starts_with_iff}
use text.Mathlib.TextLemmas.{cons-append, head-eq_of_cons-eq}
use budget_governor.Prelude.{
  String, true, false, ◌||◌, ◌≡◌, ◌≢◌, sym, ap, ◌∙◌, inl, inr, arith, Bool-cases, if◌then◌else◌,
}
use budget_governor.Provider.Pricing.{
  Family, openai, anthropic, mock, unknown, model_family, normalize_model,
}

-- The three upstreams.
pub record ProviderRouter {ℓ} (P : Type ℓ) : Type ℓ where
  pub openai : P
  pub anthropic : P
  pub mock : P

module _ {ℓ} {P : Type ℓ} (r : ProviderRouter P) where
  unfoldable pub select : String → P
  select model =
      let m = normalize_model model in
      if starts_with m "mock-"
      then r.mock
      else (if starts_with m "claude-"
          then r.anthropic
          else (if starts_with m "gpt-"
                || starts_with m "o1"
                || starts_with m "o3"
                || starts_with m "o4"
              then r.openai
              else r.mock))

  -- The upstream that owns a family of the price table.
  abbrev pub owner : Family → P
  owner openai = r.openai
  owner anthropic = r.anthropic
  owner mock = r.mock
  owner unknown = r.mock

-- Two beginnings with different first characters exclude each other.
exclusive :
    (s : String) (c x : Char) (p q : String)
    → code c ≢ code x
    → starts_with s (String.◌∷◌ c p) ≡ true
    → starts_with s (String.◌∷◌ x q) ≡ false
exclusive s c x p q apart h = elim (Bool-cases (starts_with s (String.◌∷◌ x q))) [
  | inr e ↦ e
  | inl e ↦
      let (t, split) = (starts_with_iff s (String.◌∷◌ c p)).0 h in
      let (t', split') = (starts_with_iff s (String.◌∷◌ x q)).0 e in
      let same : String.◌∷◌ c (String.◌++◌ p t) ≡ String.◌∷◌ x (String.◌++◌ q t') =
        sym (cons-append c p t) ∙ split ∙ sym split' ∙ cons-append x q t' in
      absurd (apart (ap code (head-eq_of_cons-eq same)))
]

mock-only :
    (m : String)
    → starts_with m "mock-" ≡ true
    → (starts_with m "gpt-" || starts_with m "o1" || starts_with m "o3" || starts_with m "o4"
        ≡ false)
      × (starts_with m "claude-" ≡ false)
mock-only m h =
    let g = exclusive m "m" "g" "ock-" "pt-" (omega arith) h in
    let a = exclusive m "m" "o" "ock-" "1" (omega arith) h in
    let b = exclusive m "m" "o" "ock-" "3" (omega arith) h in
    let c = exclusive m "m" "o" "ock-" "4" (omega arith) h in
    (rw (g, a, b, c), exclusive m "m" "c" "ock-" "laude-" (omega arith) h)

claude-only :
    (m : String)
    → starts_with m "claude-" ≡ true
    → starts_with m "gpt-" || starts_with m "o1" || starts_with m "o3" || starts_with m "o4" ≡ false
claude-only m h =
    let g = exclusive m "c" "g" "laude-" "pt-" (omega arith) h in
    let a = exclusive m "c" "o" "laude-" "1" (omega arith) h in
    let b = exclusive m "c" "o" "laude-" "3" (omega arith) h in
    let c = exclusive m "c" "o" "laude-" "4" (omega arith) h in rw (g, a, b, c)

-- A request is sent to the upstream of the family under which it is priced, though the two functions
-- test the prefixes in different orders; a model of no known family goes to the mock.
pub select-model_family {ℓ} :
    {P : Type ℓ} (r : ProviderRouter P) (model : String)
    → select r model ≡ owner r (model_family model)
unfolding select model_family
select-model_family r model =
    let m = normalize_model model in
    elim (Bool-cases (starts_with m "mock-")) [
      | inl e ↦ let (o, c) = mock-only m e in rw (e, o, c)
      | inr e ↦ elim (Bool-cases (starts_with m "claude-")) [
        | inl f ↦ rw (e, f, claude-only m f)
        | inr f ↦
            elim (Bool-cases (
              starts_with m "gpt-"
              || starts_with m "o1"
              || starts_with m "o3"
              || starts_with m "o4")) [ inl g ↦ rw (e, f, g) | inr g ↦ rw (e, f, g) ]
      ]
    ]
