-- ===== src/Provider/Pricing/Cheaper.antt =====
-- What `CheaperAlternatives` finds.
use mathlib.Core.Path.{subst, subst₂}
use mathlib.Core.Option.{some-injective}
use budget_governor.Prelude.{
  ◌≡◌, ◌≢◌, ◌↔◌, refl, sym, ◌⊎◌, inl, inr, true, String, some, none, List, [], ◌∷◌, arith, eq_iff,
  Bool-cases, Option-cases,
}
use budget_governor.Prelude.Float.{Float}
use budget_governor.Provider.Pricing.{
  PricePerMillion, Family, Table, model_family, same_family, pricing_table, price_of, is_cheaper,
  cheaper_names, cheaper_alternatives,
}

-- The name stands in the list.
abbrev pub IsIn : String → List String → Type 0
IsIn x [] = ⊥
IsIn x (y ∷ ys) = (y ≡ x) ⊎ IsIn x ys

pub none-ne-some : {A : Type 0} {a : A} → none ≡ some a → ⊥
none-ne-some h = cc

same_family_iff : (a b : Family) → (same_family a b ≡ true) ↔ (a ≡ b)
same_family_iff a b = ground arith

module _ {F : Type 0} ⦃d : Float F⦄ where
  open d use {lt}

  -- The entry stands in the table.
  abbrev pub IsEntry : String → PricePerMillion F → Table F → Type 0
  IsEntry name p [] = ⊥
  IsEntry name p (e ∷ table) = ((e.0 ≡ name) × (e.1 ≡ p)) ⊎ IsEntry name p table

  -- Another model of the family whose output costs less.
  abbrev pub IsCheaper : String → PricePerMillion F → String → PricePerMillion F → Type 0
  IsCheaper model base name p =
      (name ≢ model) × (model_family name ≡ model_family model) × (lt p.output base.output ≡ true)

  abbrev pub IsBargain : String → PricePerMillion F → String → Table F → Type 0
  IsBargain model base name table =
      (p : PricePerMillion F) × IsEntry name p table × IsCheaper model base name p

  is_cheaper_iff :
      (model : String) (base : PricePerMillion F) (e : String × PricePerMillion F)
      → (is_cheaper model base e ≡ true) ↔ IsCheaper model base e.0 e.1
  unfolding is_cheaper
  is_cheaper_iff model base (name, p) =
      ground (arith, eq_iff name model, same_family_iff (model_family name) (model_family model))

  cheaper_names_sound :
      (model : String) (base : PricePerMillion F) (table : Table F) (name : String)
      → IsIn name (cheaper_names model base table)
      → IsBargain model base name table
  unfolding cheaper_names
  cheaper_names_sound model base [] name h = absurd h
  cheaper_names_sound model base (e ∷ table) name h =
      let later = cheaper_names_sound model base table name in
      elim (Bool-cases (is_cheaper model base e)) [
        | inl yes_it_is ↦ elim (rw yes_it_is at h) [
          | inl same ↦ (
            e.1,
            inl (same, refl),
            subst (λ n. IsCheaper model base n e.1) same
                ((is_cheaper_iff model base e).0 yes_it_is),
          )
          | inr rest ↦ let (p, entry, c) = later rest in (p, inr entry, c)
        ]
        | inr no_it_is ↦ let (p, entry, c) = later (rw no_it_is at h) in (p, inr entry, c)
      ]

  cheaper_names_complete :
      (model : String) (base : PricePerMillion F) (table : Table F) (name : String)
      (p : PricePerMillion F)
      → IsEntry name p table
      → IsCheaper model base name p
      → IsIn name (cheaper_names model base table)
  unfolding cheaper_names
  cheaper_names_complete model base [] name p h c = absurd h
  cheaper_names_complete model base (e ∷ table) name p (inl (n, q)) c =
      let hit : IsCheaper model base e.0 e.1 = subst₂ (IsCheaper model base) (sym n) (sym q) c in
      rw ((is_cheaper_iff model base e).1 hit) (inl n)
  cheaper_names_complete model base (e ∷ table) name p (inr h) c =
      let later = cheaper_names_complete model base table name p h c in
      elim (Bool-cases (is_cheaper model base e)) [ inl a ↦ rw a (inr later) | inr a ↦ rw a later ]

  -- `CheaperAlternatives` lists exactly the names of the table, other than the model, that are of the
  -- model's family and whose output price is below the model's; nothing for a model with no price.
  pub cheaper_alternatives_iff :
      (model name : String)
      → IsIn name (cheaper_alternatives F model) ↔ (
          (base : PricePerMillion F) × (price_of model ≡ some base)
          × IsBargain model base name pricing_table)
  unfolding cheaper_alternatives
  cheaper_alternatives_iff model name = elim (Option-cases (price_of {F = F} model)) [
    | inl e ↦ rw e (λ h. absurd h, λ h. none-ne-some h.1)
    | inr (base, e) ↦ rw e (
      λ h. (base, refl, cheaper_names_sound model base pricing_table name h),
      λ (b, same, (p, entry, c)).
          cheaper_names_complete model base pricing_table name p entry
            (subst (λ x. IsCheaper model x name p) (sym (some-injective _ _ same)) c),
    )
  ]
