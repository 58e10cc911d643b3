-- ===== src/Proxy/SpendWriter/Rows.antt =====
-- `writeBatch`: each placeholder stands for the column that it is in.
use mathlib.Core.Option.{some-injective}
use budget_governor.Provider.Pricing.Cheaper.{none-ne-some}
use budget_governor.Prelude.{
  ℕ, zero, suc, ◌+◌, ◌-◌, ◌*◌, ◌<◌, some, List, [], ◌∷◌, ◌++◌, ◌≡◌, refl, ◌∙◌, ap, arith, length,
  get_elem?, get_elem?-append,
}
use budget_governor.Proxy.SpendWriter.{SpendEvent, row_of, args_of, placeholder}

get_elem?-front {ℓ} :
    {A : Type ℓ} (xs ys : List A) (j : ℕ) → j < length xs → get_elem? (xs ++ ys) j ≡ get_elem? xs j
get_elem?-front [] ys j h = absurd (omega (arith, h))
get_elem?-front (x ∷ xs) ys zero h = refl
get_elem?-front (x ∷ xs) ys (suc j) h = get_elem?-front xs ys j (omega (arith, h))

module _ {F : Type 0} where
  length-row_of : (e : SpendEvent F) → length (row_of e) ≡ 11
  unfolding row_of
  length-row_of e = refl

  args_at :
      (batch : List (SpendEvent F)) (i j : ℕ) (e : SpendEvent F)
      → get_elem? batch i ≡ some e
      → j < 11
      → get_elem? (args_of batch) (i * 11 + j) ≡ get_elem? (row_of e) j
  unfolding args_of
  args_at [] i j e h k = absurd (none-ne-some h)
  args_at (x ∷ batch) zero j e h k =
      let start : 0 * 11 + j ≡ j = omega arith in
      rw start (
        get_elem?-front (row_of x) (args_of batch) j (omega (arith, length-row_of x, k))
        ∙ ap (λ y. get_elem? (row_of y) j) (some-injective _ _ h))
  args_at (x ∷ batch) (suc i) j e h k =
      let shift : suc i * 11 + j ≡ length (row_of x) + (i * 11 + j) =
        omega (arith, length-row_of x) in
      rw shift (get_elem?-append (row_of x) (args_of batch) (i * 11 + j) ∙ args_at batch i j e h k)

  -- The argument that the placeholder of a column of a row is numbered for is that column of that
  -- event, for every row of a batch and each of the eleven columns.
  pub args_of-placeholder :
      (batch : List (SpendEvent F)) (i j : ℕ) (e : SpendEvent F)
      → get_elem? batch i ≡ some e
      → j < 11
      → get_elem? (args_of batch) (placeholder i j - 1) ≡ get_elem? (row_of e) j
  unfolding placeholder
  args_of-placeholder batch i j e h k =
      let same : i * 11 + j + 1 - 1 ≡ i * 11 + j = omega arith in rw same (args_at batch i j e h k)
