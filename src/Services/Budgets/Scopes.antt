-- ===== src/Services/Budgets/Scopes.antt =====
-- The table of budgets by scope: what the gateway reads from it, whatever the order of the rows.
use mathlib.Core.Path.{subst}
use mathlib.Core.Bool.{false≢true}
use budget_governor.Prelude.{
  String, Bool, true, false, ◌&&◌, Option, none, some, List, [], ◌∷◌, ◌≡◌, ◌≢◌, refl, sym, ◌∙◌, inl,
  inr, All, str_eq, eq_iff, if-both, if◌then◌else◌,
}
use budget_governor.Prelude.Float.{Float}
use budget_governor.Auth.Keys.Vouched.{IsMember}
use budget_governor.Budget.Types.{Limits}
use budget_governor.Budget.ConfigCache.{Row, ConfigKey, same_key, key_of, text_of, limits_of}
use budget_governor.Budget.ConfigCache.Keys.{ne-str_eq_both}
use budget_governor.Budget.ConfigCache.Load.{latest, or_earlier}
use budget_governor.Services.Budgets.{same_text}

both_true : (a b : Bool) → (a && b) ≡ true → (a ≡ true) × (b ≡ true)
both_true true b h = (refl, h)
both_true false b h = absurd (false≢true h)

pub same_key-eq : (a b : ConfigKey) → same_key a b ≡ true → a ≡ b
same_key-eq a b h =
    let (p, h') = both_true _ _ h in
    let (q, s) = both_true _ _ h' in
    let e = (eq_iff a.tenant_id b.tenant_id).0 p in
    let e' = (eq_iff a.agent_id b.agent_id).0 q in
    let e'' = (eq_iff a.task_id b.task_id).0 s in
    λ i. record { tenant_id = e i; agent_id = e' i; task_id = e'' i }

-- The column is NULL or has a text in it.
abbrev pub IsNamed : Option String → Type 0
IsNamed none = Unit
IsNamed (some s) = s ≢ ""

pub str_eq-text_of :
    (a b : Option String) → IsNamed a → IsNamed b → str_eq (text_of a) (text_of b) ≡ same_text a b
str_eq-text_of none none h k = refl
str_eq-text_of none (some s) h k = (ne-str_eq_both s "" k).1
str_eq-text_of (some s) none h k = (ne-str_eq_both s "" h).0
str_eq-text_of (some s) (some t) h k = refl

pub All-member :
    {A : Type 0} (P : A → Type 0) (x : A) (xs : List A) → All P xs → IsMember x xs → P x
All-member P x [] h m = absurd m
All-member P x (y ∷ ys) h (inl e) = subst P e h.0
All-member P x (y ∷ ys) h (inr m) = All-member P x ys h.1 m

module _ {F : Type 0} where
  -- No two rows are of one scope, as the gateway reads them.
  abbrev pub IsKeyed : List (Row F) → Type 0
  IsKeyed [] = Unit
  IsKeyed (r ∷ rows) = All (λ r'. same_key (key_of r) (key_of r') ≡ false) rows × IsKeyed rows

  abbrev pub IsTidy : List (Row F) → Type 0
  IsTidy table = All (λ (r : Row F). IsNamed r.agent_id × IsNamed r.task_id) table × IsKeyed table

  -- The rows are those of the table, in any order.
  abbrev pub IsSelected : List (Row F) → List (Row F) → Type 0
  IsSelected rows table =
      (r : Row F) → (IsMember r rows → IsMember r table) × (IsMember r table → IsMember r rows)

  apart :
      (r r' : Row F) (key : ConfigKey)
      → same_key (key_of r) key ≡ true
      → same_key (key_of r') key ≡ true
      → same_key (key_of r) (key_of r') ≡ false
      → ⊥
  apart r r' key e e' h =
      false≢true (sym h ∙ subst (λ k. same_key (key_of r) k ≡ true) (sym (same_key-eq _ _ e')) e)

  only_one :
      (key : ConfigKey) (table : List (Row F)) (r r' : Row F)
      → IsKeyed table
      → IsMember r table
      → IsMember r' table
      → same_key (key_of r) key ≡ true
      → same_key (key_of r') key ≡ true
      → r ≡ r'
  only_one key [] r r' h m m' e e' = absurd m
  only_one key (x ∷ xs) r r' h (inl p) (inl p') e e' = sym p ∙ p'
  only_one key (x ∷ xs) r r' h (inl p) (inr m') e e' = absurd (
      apart r r' key e e'
        (subst (λ y. same_key (key_of y) (key_of r') ≡ false) p (All-member _ r' xs h.0 m')))
  only_one key (x ∷ xs) r r' h (inr m) (inl p') e e' = absurd (
      apart r' r key e' e
        (subst (λ y. same_key (key_of y) (key_of r) ≡ false) p' (All-member _ r xs h.0 m)))
  only_one key (x ∷ xs) r r' h (inr m) (inr m') e e' = only_one key xs r r' h.1 m m' e e'

module _ {F : Type 0} ⦃d : Float F⦄ (key : ConfigKey) where
  -- The limits of a scope in the table.
  unfoldable pub first : List (Row F) → Option (Limits F)
  first [] = none
  first (r ∷ rows) =
      let rest = first rows in if same_key (key_of r) key then some (limits_of r) else rest

  abbrev IsFound : List (Row F) → Option (Limits F) → Type 0
  IsFound rows none = All (λ r. same_key (key_of r) key ≡ false) rows
  IsFound rows (some l) =
      (r : Row F) × IsMember r rows × (same_key (key_of r) key ≡ true) × (l ≡ limits_of r)

  IsFound-later :
      (r : Row F) (rows : List (Row F)) (o : Option (Limits F))
      → same_key (key_of r) key ≡ false
      → IsFound rows o
      → IsFound (r ∷ rows) o
  IsFound-later r rows none e h = (e, h)
  IsFound-later r rows (some l) e (r', m, e', q) = (r', inr m, e', q)

  first-IsFound : (rows : List (Row F)) → IsFound rows (first rows)
  unfolding first
  first-IsFound [] = tt
  first-IsFound (r ∷ rows) =
      let rest = first-IsFound rows in
      if-both (IsFound (r ∷ rows)) (same_key (key_of r) key) _ _ (λ e. (r, inl refl, e, refl))
        (λ e. IsFound-later r rows (first rows) e rest)

  IsFound-earlier :
      (r : Row F) (rows : List (Row F)) (o : Option (Limits F))
      → IsFound rows o
      → IsFound
          (r ∷ rows)
          (or_earlier o (if same_key (key_of r) key then some (limits_of r) else none))
  IsFound-earlier r rows none h =
      if-both (IsFound (r ∷ rows)) (same_key (key_of r) key) _ _ (λ e. (r, inl refl, e, refl))
        (λ e. (e, h))
  IsFound-earlier r rows (some l) (r', m, e, q) = (r', inr m, e, q)

  latest-IsFound : (rows : List (Row F)) → IsFound rows (latest key rows)
  unfolding latest
  latest-IsFound [] = tt
  latest-IsFound (r ∷ rows) = IsFound-earlier r rows (latest key rows) (latest-IsFound rows)

  same_found :
      (rows table : List (Row F)) (o o' : Option (Limits F))
      → IsKeyed table
      → IsSelected rows table
      → IsFound rows o
      → IsFound table o'
      → o ≡ o'
  same_found rows table none none h s f f' = refl
  same_found rows table none (some l) h s f (r, m, e, q) =
      absurd (false≢true (sym (All-member _ r rows f ((s r).1 m)) ∙ e))
  same_found rows table (some l) none h s (r, m, e, q) f =
      absurd (false≢true (sym (All-member _ r table f ((s r).0 m)) ∙ e))
  same_found rows table (some l) (some l') h s (r, m, e, q) (r', m', e', q') =
      let same : r ≡ r' = only_one key table r r' h ((s r).0 m) m' e e' in rw (q, q', same) refl

  -- Rows of a table that has one row for each scope, in any order.
  pub latest-first :
      (rows table : List (Row F))
      → IsKeyed table
      → IsSelected rows table
      → latest key rows ≡ first table
  latest-first rows table h s =
      same_found rows table _ _ h s (latest-IsFound rows) (first-IsFound table)
