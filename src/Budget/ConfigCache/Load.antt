-- ===== src/Budget/ConfigCache/Load.antt =====
-- `Refresh`: the last row of a scope counts, an error changes nothing, and no limit turns negative.
use mathlib.Core.Path.{subst}
use budget_governor.Prelude.{
  true, false, Option, none, some, List, [], ◌∷◌, map, ◌≡◌, refl, ap, ◌∙◌, ◌⊎◌, inl, inr, arith,
  Bool-cases, Option-cases, if◌then◌else◌,
}
use budget_governor.Prelude.Int.{ℤ, pos, ltb_ℤ, ◌≤ℤ◌}
use budget_governor.Prelude.Float.{Float, IsOrdered, nought, ◌≼◌}
use budget_governor.Budget.Types.{Limits}
use budget_governor.Budget.Script.{or_else}
use budget_governor.Budget.ConfigCache.{
  Row, ConfigKey, same_key, ConfigMap, key_of, lookup, Query, query_failed, result, limits_of, load,
  per_second, usd_rate, token_rate, dollar_rate, refresh,
}

-- What is present is not negative.
abbrev pub IsNonnegInt : Option ℤ → Type 0
IsNonnegInt none = Unit
IsNonnegInt (some z) = pos 0 ≤ℤ z

module _ {F : Type 0} ⦃d : Float F⦄ where
  open d use {lt, of_int, div, mul}

  abbrev pub or_earlier : Option (Limits F) → Option (Limits F) → Option (Limits F)
  or_earlier none earlier = earlier
  or_earlier (some l) earlier = some l

  -- The limits of the last row of this key.
  unfoldable pub latest : ConfigKey → List (Row F) → Option (Limits F)
  latest key [] = none
  latest key (r ∷ rows) =
      or_earlier (latest key rows) (if same_key (key_of r) key then some (limits_of r) else none)

  or_earlier-none : (o : Option (Limits F)) → or_earlier o none ≡ o
  or_earlier-none none = refl
  or_earlier-none (some l) = refl

  -- What loading the rows on top of a map gives.
  abbrev IsLoaded : List (Option (Row F)) → ConfigMap F → Option (ConfigMap F) → Type 0
  IsLoaded rows next none = Unit
  IsLoaded rows next (some out) =
      (scanned : List (Row F)) × (rows ≡ map some scanned)
      × ((key : ConfigKey) → lookup key out ≡ or_earlier (latest key scanned) (lookup key next))

  IsLoaded-cons :
      (r : Row F) (rows : List (Option (Row F))) (next : ConfigMap F) (o : Option (ConfigMap F))
      → IsLoaded rows ((key_of r, limits_of r) ∷ next) o
      → IsLoaded (some r ∷ rows) next o
  unfolding lookup latest
  IsLoaded-cons r rows next none h = tt
  IsLoaded-cons r rows next (some out) (scanned, e, h) =
      (r ∷ scanned, ap (◌∷◌ (some r)) e, λ key. h key ∙ ground arith)

  load-IsLoaded :
      (rows : List (Option (Row F))) (next : ConfigMap F) → IsLoaded rows next (load rows next)
  unfolding load latest
  load-IsLoaded [] next = ([], refl, λ key. refl)
  load-IsLoaded (none ∷ rows) next = tt
  load-IsLoaded (some r ∷ rows) next =
      IsLoaded-cons r rows next _ (load-IsLoaded rows ((key_of r, limits_of r) ∷ next))

  -- A reload either fails and keeps the old entries; or all rows could be read, the old entries are
  -- gone, and each scope has the limits of its last row, or none if it has no row.
  pub refresh_effect :
      (q : Query F) (entries : ConfigMap F)
      → let (done, entries') = refresh q entries in
        ((done ≡ false) × (entries' ≡ entries))
        ⊎ ((rows : List (Row F)) × (q ≡ result (map some rows) true)
            × (done ≡ true)
            × ((key : ConfigKey) → lookup key entries' ≡ latest key rows))
  unfolding refresh lookup
  refresh_effect query_failed entries = inl (refl, refl)
  refresh_effect (result rows false) entries = elim (Option-cases (load rows [])) [
    | inl e ↦ inl (rw (e, refresh) (refl, refl))
    | inr (next, e) ↦ inl (rw (e, refresh) (refl, refl))
  ]
  refresh_effect (result rows true) entries = elim (Option-cases (load rows [])) [
    | inl e ↦ inl (rw (e, refresh) (refl, refl))
    | inr (next, e) ↦
        let (scanned, split, look) : IsLoaded rows [] (some next) =
          subst (IsLoaded rows []) e (load-IsLoaded rows []) in
        inr (
          scanned,
          ap (λ x. result x true) split,
          rw (e, refresh) refl,
          λ key. rw (e, refresh) (look key ∙ or_earlier-none (latest key scanned)),
        )
  ]

  abbrev pub IsNonneg : Option F → Type 0
  IsNonneg none = Unit
  IsNonneg (some x) = nought ≼ x

  -- No limit and no rate is negative.
  abbrev pub IsNonnegLimits : Limits F → Type 0
  IsNonnegLimits l =
      (pos 0 ≤ℤ l.token_limit)
      × (nought ≼ l.dollar_limit)
      × (nought ≼ l.refill_tokens_per_sec)
      × (nought ≼ l.refill_usd_per_sec)

  module _ (laws : IsOrdered F) where
    open laws use {lt_irrefl, div_nonneg, mul_nonneg, of_int_sign}

    of_int_nonneg : (z : ℤ) → pos 0 ≤ℤ z → nought ≼ of_int z
    of_int_nonneg z h = ground (arith, of_int_sign z)

    over_sixty : (x : F) → nought ≼ x → nought ≼ div x (of_int (pos 60))
    over_sixty x h = div_nonneg x _ h (of_int_nonneg (pos 60) (omega arith))

    per_second_nonneg : (o : Option F) → IsNonneg o → nought ≼ per_second o
    per_second_nonneg none h = lt_irrefl nought
    per_second_nonneg (some x) h = over_sixty x h

    token_rate_nonneg : (x : F) (o : Option ℤ) → nought ≼ x → nought ≼ token_rate x o
    token_rate_nonneg x none h = lt_irrefl nought
    token_rate_nonneg x (some n) h = h

    usd_rate_nonneg :
        (x : F) (o : Option ℤ) (y : F)
        → nought ≼ x
        → IsNonnegInt o
        → nought ≼ y
        → nought ≼ usd_rate x o y
    usd_rate_nonneg x none y h t k = over_sixty y k
    usd_rate_nonneg x (some n) y h t k = elim (Bool-cases (ltb_ℤ (pos 0) n)) [
      | inl e ↦ rw e (mul_nonneg x _ h (div_nonneg y _ k (of_int_nonneg n t)))
      | inr e ↦ rw e (over_sixty y k)
    ]

    dollar_rate_nonneg :
        (x : F) (r : Row F) (o : Option F)
        → nought ≼ x
        → IsNonnegInt r.token_limit
        → IsNonneg o
        → nought ≼ dollar_rate x r o
    dollar_rate_nonneg x r none h t u = lt_irrefl nought
    dollar_rate_nonneg x r (some y) h t u = usd_rate_nonneg x r.token_limit y h t u

    or_zero_nonneg : (o : Option ℤ) → IsNonnegInt o → pos 0 ≤ℤ or_else o (pos 0)
    or_zero_nonneg none h = omega arith
    or_zero_nonneg (some z) h = h

    or_nought_nonneg : (o : Option F) → IsNonneg o → nought ≼ or_else o nought
    or_nought_nonneg none h = lt_irrefl nought
    or_nought_nonneg (some x) h = h

    -- If the arithmetic is ordered and no number of a row is negative, then no limit and no
    -- refill rate is.
    pub limits_of-IsNonnegLimits :
        (r : Row F)
        → IsNonnegInt r.token_limit
        → IsNonneg r.dollar_limit
        → IsNonneg r.refill_per_minute
        → IsNonnegLimits (limits_of r)
    unfolding limits_of
    limits_of-IsNonnegLimits r t u m =
        let refill = per_second_nonneg r.refill_per_minute m in
        (
          or_zero_nonneg r.token_limit t,
          or_nought_nonneg r.dollar_limit u,
          token_rate_nonneg (per_second r.refill_per_minute) r.token_limit refill,
          dollar_rate_nonneg (per_second r.refill_per_minute) r r.dollar_limit refill t u,
        )

module _ {F : Type 0} ⦃d : Float F⦄ (key : ConfigKey) where
  load-lookup :
      (rows : List (Row F)) (next : ConfigMap F)
      → (out : ConfigMap F) × (load (map some rows) next ≡ some out)
        × (lookup key out ≡ or_earlier (latest key rows) (lookup key next))
  unfolding load lookup latest
  load-lookup [] next = (next, refl, refl)
  load-lookup (r ∷ rows) next =
      let (out, e, h) = load-lookup rows ((key_of r, limits_of r) ∷ next) in
      (out, e, h ∙ ground arith)

  -- A reload that goes well.
  pub lookup-refresh :
      (rows : List (Row F)) (entries : ConfigMap F)
      → lookup key (refresh (result (map some rows) true) entries).1 ≡ latest key rows
  unfolding refresh lookup
  lookup-refresh rows entries =
      let (out, e, h) = load-lookup rows [] in
      rw (e, refresh) (h ∙ or_earlier-none (latest key rows))
