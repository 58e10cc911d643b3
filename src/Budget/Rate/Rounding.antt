-- ===== src/Budget/Rate/Rounding.antt =====
-- What one refill and one charge do to a balance, counted in smallest numbers.
use budget_governor.Prelude.{
  ℕ, ◌+◌, ◌*◌, ◌≤◌, ◌≡◌, true, false, arith, inl, inr, Bool-cases, if-both,
}
use budget_governor.Prelude.Int.{pos, pos_part, ◌≤ℤ◌, ◌+ℤ◌, ◌-ℤ◌, int_laws}
use budget_governor.Prelude.Float.{Float, nought, ◌≼◌}
use budget_governor.Budget.Script.{Redis, refill, elapsed_since}
use budget_governor.Budget.Enforcer.{is_zero}
use budget_governor.Budget.Rate.{IsClose}

module _ {F : Type 0} ⦃d : Float F⦄ {r : Redis F} (close : IsClose r) where
  open d use {lt, add, sub, mul}
  open close use {units, one, slack, units_nought, lt_units, add-le, sub-le, mul-le, tostring-le}

  pub units-nonneg : (x : F) → nought ≼ x → pos 0 ≤ℤ units x
  units-nonneg x h = grind (int_laws, lt_units x nought, units_nought)

  pub units-mono : (x y : F) → x ≼ y → units x ≤ℤ units y
  units-mono x y h = grind (int_laws, lt_units y x)

  pub units-less : (x y : F) → lt x y ≡ true → units x ≤ℤ units y
  units-less x y h = grind (int_laws, lt_units x y)

  pub units-eq-zero : (x : F) → is_zero x ≡ true → units x ≡ pos 0
  units-eq-zero x h =
      let (below, above) : (lt x nought ≡ false) × (lt nought x ≡ false) = ground arith in
      let p = units-mono nought x below in
      let q = units-mono x nought above in grind (int_laws, p, q, units_nought)

  -- What a refill adds is at most the rate times the time that has passed, up to rounding.
  abbrev pub IsAdded : F → F → F → F → F → ℕ → Type 0
  IsAdded limit remaining elapsed rate new gain =
      (units new ≤ℤ units remaining +ℤ pos (gain + slack))
      × (one * gain ≤ pos_part (units rate) * pos_part (units elapsed) + one * slack)

  pub refill-IsAdded :
      (limit remaining elapsed rate : F)
      → lt nought limit ≡ true
      → nought ≼ elapsed
      → nought ≼ rate
      → let new = refill limit remaining elapsed rate in
        IsAdded limit remaining elapsed rate new (pos_part (units (mul elapsed rate)))
  unfolding refill
  refill-IsAdded limit remaining elapsed rate e p q =
      let whole = add remaining (mul elapsed rate) in
      let bound : units whole
          ≤ℤ units remaining +ℤ pos (pos_part (units (mul elapsed rate)) + slack) =
        grind (int_laws, add-le remaining (mul elapsed rate)) in
      (
        rw e (
            if-both
              (λ x. units x ≤ℤ units remaining +ℤ pos (pos_part (units (mul elapsed rate)) + slack))
              (lt limit whole) limit whole
              (λ over. omega (arith, units-less limit whole over, bound)) (λ _. bound)),
        mul-le elapsed rate p q,
      )

  pub refill-le :
      (limit remaining elapsed rate : F)
      → lt nought limit ≡ true
      → units (refill limit remaining elapsed rate) ≤ℤ units limit
  unfolding refill
  refill-le limit remaining elapsed rate e =
      let whole = add remaining (mul elapsed rate) in
      rw e (
        if-both (λ x. units x ≤ℤ units limit) (lt limit whole) limit whole (λ over. omega arith)
          (λ below. units-mono whole limit below))

  -- The clock cannot have gone further than it shows, up to rounding.
  pub elapsed-le :
      (now last : F)
      → units last ≤ℤ units now +ℤ pos slack
      → pos (pos_part (units (elapsed_since now last))) +ℤ units last ≤ℤ units now +ℤ pos slack
  unfolding elapsed_since
  elapsed-le now last h = elim (Bool-cases (lt (sub now last) nought)) [
    | inl e ↦ rw e (grind (int_laws, units_nought))
    | inr e ↦ rw e (grind (int_laws, sub-le now last, units-nonneg (sub now last) e))
  ]

  pub charged-le :
      (balance tokens : F)
      → units (r.tostring (sub balance tokens))
        ≤ℤ units balance -ℤ units tokens +ℤ pos (slack + slack)
  charged-le balance tokens =
      grind (int_laws, tostring-le (sub balance tokens), sub-le balance tokens)
