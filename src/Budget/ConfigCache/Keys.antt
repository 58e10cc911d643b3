-- ===== src/Budget/ConfigCache/Keys.antt =====
-- Keys of buckets, as texts.
use Prim.Native.Char.{Char, code}
use text.Mathlib.TextLemmas.{
  cons≢nil, append-eq-nil_iff, append_cancel_left, append_cancel_right, cons-append, nil-append,
  head-eq_of_cons-eq, tail-eq_of_cons-eq,
}
use budget_governor.Prelude.{
  String, str_eq, eq_iff, Bool-cases, false, ◌≡◌, refl, ap, sym, ◌∙◌, arith, ◌≢◌, inl, inr,
}
use budget_governor.Budget.Types.{◌++ₛ◌, Scope, task, agent, tenant, bucket_key}

abbrev colon : Char
colon = ":"

behind_colon : (t : String) → ":" ++ₛ t ≡ String.◌∷◌ colon t
behind_colon t = cons-append colon "" t ∙ ap (String.◌∷◌ colon) (nil-append t)

-- The text has no colon.
abbrev pub IsField : String → Type 0
IsField String.[] = Unit
IsField (String.◌∷◌ c s) = (c ≢ colon) × IsField s

pub field_eq :
    (s s' t t' : String) → IsField s → IsField s' → s ++ₛ ":" ++ₛ t ≡ s' ++ₛ ":" ++ₛ t' → s ≡ s'
field_eq String.[] String.[] t t' p q h = refl
field_eq String.[] (String.◌∷◌ c s') t t' p q h = absurd (
    q.0 (
      head-eq_of_cons-eq
        (sym (cons-append c s' (":" ++ₛ t')) ∙ sym h ∙ nil-append (":" ++ₛ t) ∙ behind_colon t)))
field_eq (String.◌∷◌ c s) String.[] t t' p q h = absurd (
    p.0 (
      head-eq_of_cons-eq
        (sym (cons-append c s (":" ++ₛ t)) ∙ h ∙ nil-append (":" ++ₛ t') ∙ behind_colon t')))
field_eq (String.◌∷◌ c s) (String.◌∷◌ c' s') t t' p q h =
    let k : String.◌∷◌ c (s ++ₛ ":" ++ₛ t) ≡ String.◌∷◌ c' (s' ++ₛ ":" ++ₛ t') =
      sym (cons-append c s (":" ++ₛ t)) ∙ h ∙ cons-append c' s' (":" ++ₛ t') in
    cc (head-eq_of_cons-eq k, field_eq s s' t t' p.1 q.1 (tail-eq_of_cons-eq k))

pub ne-str_eq : (s t : String) → s ≢ t → str_eq s t ≡ false
ne-str_eq s t h = elim (Bool-cases (str_eq s t)) [
  | inl e ↦ absurd (h ((eq_iff s t).0 e))
  | inr e ↦ e
]

pub ne-str_eq_both : (s t : String) → s ≢ t → (str_eq s t ≡ false) × (str_eq t s ≡ false)
ne-str_eq_both s t h = (ne-str_eq s t h, ne-str_eq t s (λ e. h (sym e)))

-- What stands behind the tenant.
abbrev scope_part : String → String → Scope → String
scope_part a k task = a ++ₛ ":" ++ₛ k
scope_part a k agent = a ++ₛ ":-"
scope_part a k tenant = "-:-"

bucket_key_shape :
    (t a k : String) (scope : Scope)
    → bucket_key t a k scope ≡ "budget:" ++ₛ t ++ₛ ":" ++ₛ scope_part a k scope
unfolding bucket_key
bucket_key_shape t a k task = refl
bucket_key_shape t a k agent = refl
bucket_key_shape t a k tenant = refl

-- The key tells the tenant.
pub bucket_key_tenant :
    (t t' a a' k k' : String) (scope scope' : Scope)
    → IsField t
    → IsField t'
    → bucket_key t a k scope ≡ bucket_key t' a' k' scope'
    → t ≡ t'
bucket_key_tenant t t' a a' k k' scope scope' p q h =
    field_eq t t' (scope_part a k scope) (scope_part a' k' scope') p q (
      append_cancel_left "budget:" _ _
        (sym (bucket_key_shape t a k scope) ∙ h ∙ bucket_key_shape t' a' k' scope'))

scope_part_eq :
    (t a a' k k' : String) (scope scope' : Scope)
    → bucket_key t a k scope ≡ bucket_key t a' k' scope'
    → scope_part a k scope ≡ scope_part a' k' scope'
scope_part_eq t a a' k k' scope scope' h = append_cancel_left ":" _ _ (
    append_cancel_left t _ _ (
      append_cancel_left "budget:" _ _
        (sym (bucket_key_shape t a k scope) ∙ h ∙ bucket_key_shape t a' k' scope')))

pub task-ne-agent : (t a k : String) → k ≢ "-" → bucket_key t a k task ≢ bucket_key t a "" agent
task-ne-agent t a k p h = p (
    append_cancel_left ":" k "-"
      (append_cancel_left a (":" ++ₛ k) (":" ++ₛ "-") (scope_part_eq t a a k "" task agent h)))

pub agent-ne-tenant : (t a : String) → a ≢ "-" → bucket_key t a "" agent ≢ bucket_key t "" "" tenant
agent-ne-tenant t a p h =
    p (append_cancel_right a "-" ":-" (scope_part_eq t a "" "" "" agent tenant h))

abbrev dash : Char
dash = "-"

colon-ne-dash : colon ≢ dash
colon-ne-dash h = let e : 58 ≡ 45 = ap code h in absurd (omega (arith, e))

drop_first : (c x : Char) (s t u : String) → String.◌∷◌ c s ++ₛ t ≡ String.◌∷◌ x u → s ++ₛ t ≡ u
drop_first c x s t u h = tail-eq_of_cons-eq (sym (cons-append c s t) ∙ h)

starts_with_colon : (x : Char) (t u : String) → ":" ++ₛ t ≡ String.◌∷◌ x u → (colon ≡ x) × (t ≡ u)
starts_with_colon x t u h =
    let e : String.◌∷◌ colon t ≡ String.◌∷◌ x u = sym (behind_colon t) ∙ h in
    (head-eq_of_cons-eq e, tail-eq_of_cons-eq e)

no_room : (s k : String) → s ++ₛ ":" ++ₛ k ≢ "-"
no_room String.[] k h =
    colon-ne-dash (starts_with_colon dash k "" (sym (nil-append (":" ++ₛ k)) ∙ h)).0
no_room (String.◌∷◌ c s) k h =
    let e : s ++ₛ ":" ++ₛ k ≡ "" = drop_first c dash s (":" ++ₛ k) "" h in
    cons≢nil (sym (behind_colon k) ∙ (append-eq-nil_iff.0 e).1)

-- Only two dashes make the middle and the end of a tenant's key.
dashes : (a k : String) → a ++ₛ ":" ++ₛ k ≡ "-:-" → k ≡ "-"
dashes String.[] k h =
    absurd (colon-ne-dash (starts_with_colon dash k ":-" (sym (nil-append (":" ++ₛ k)) ∙ h)).0)
dashes (String.◌∷◌ c String.[]) k h =
    (starts_with_colon colon k "-"
      (sym (nil-append (":" ++ₛ k)) ∙ drop_first c dash "" (":" ++ₛ k) ":-" h)).1
dashes (String.◌∷◌ c (String.◌∷◌ c' s)) k h = absurd (
    no_room s k (
      drop_first c' colon s (":" ++ₛ k) "-"
        (drop_first c dash (String.◌∷◌ c' s) (":" ++ₛ k) ":-" h)))

pub task-ne-tenant : (t a k : String) → k ≢ "-" → bucket_key t a k task ≢ bucket_key t "" "" tenant
task-ne-tenant t a k p h = p (dashes a k (scope_part_eq t a "" k "" task tenant h))
