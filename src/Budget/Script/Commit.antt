-- ===== src/Budget/Script/Commit.antt =====
-- Phase 3 of checkAndDecrement.lua: what is written when a request is admitted.
use mathlib.Core.Path.{subst}
use text.Mathlib.TextPositions.{eq_refl}
use budget_governor.Prelude.{
  ◌≡◌, refl, ◌∙◌, ◌⊎◌, inl, inr, Bool-cases, true, false, Bool, Option, none, some, String, List,
  [], ◌∷◌, arith, All, All-both, str_eq, if◌then◌else◌,
}
use budget_governor.Prelude.Float.{Float, nought, ◌≼◌, IsOrdered}
use budget_governor.Budget.Script.{
  Hash, Store, Redis, Bucket, Minima, put, committed, phase3, lower,
}

module _ {F : Type 0} where
  -- No bucket of the list has this key.
  abbrev pub IsFresh : String → List (Bucket F) → Type 0
  IsFresh key = All λ b. (str_eq key b.key ≡ false) × (str_eq b.key key ≡ false)

  -- No two buckets share a key.
  abbrev pub IsDistinct : List (Bucket F) → Type 0
  IsDistinct [] = Unit
  IsDistinct (b ∷ bs) = IsFresh b.key bs × IsDistinct bs

-- The hash that a charge is to leave: both balances less the charge, the time of the charge, and the
-- time to live anew where one is set.
abbrev pub charged_hash :
    {F : Type 0} ⦃d : Float F⦄ → Redis F → F → F → F → F → Store F → Bucket F → Hash F
charged_hash ⦃d = d⦄ r tokens usd state_ttl now s b = record {
  tokens_remaining = some (r.tostring (d.sub b.computed_tokens tokens));
  usd_remaining = some (r.tostring (d.sub b.computed_usd usd));
  last_refill_ts = some (r.tostring now);
  ttl = if d.lt nought state_ttl then some (d.trunc state_ttl) else (s b.key).ttl;
}

module _ {F : Type 0} ⦃d : Float F⦄ (r : Redis F) (tokens usd state_ttl now : F) where
  open d use {sub, lt}

  -- Every bucket's hash is charged, from the old state.
  abbrev pub IsWritten : Store F → List (Bucket F) → Store F → Type 0
  IsWritten s bs s' = All (λ b. s' b.key ≡ charged_hash r tokens usd state_ttl now s b) bs

  pub phase3_fresh :
      (key : String) (bs : List (Bucket F)) (low : Minima F) (s : Store F)
      → IsFresh key bs
      → (phase3 r tokens usd state_ttl now bs low s).1 key ≡ s key
  unfolding phase3
  phase3_fresh key [] low s h = refl
  phase3_fresh key (b ∷ bs) low s h = phase3_fresh key bs _ _ h.1 ∙ rw h.0.0

  charged_hash-put :
      (s : Store F) (key : String) (h : Hash F) (b : Bucket F)
      → str_eq b.key key ≡ false
      → charged_hash r tokens usd state_ttl now (put s key h) b
        ≡ charged_hash r tokens usd state_ttl now s b
  charged_hash-put s key h b e = rw e

  pub phase3-IsWritten :
      (bs : List (Bucket F)) (low : Minima F) (s : Store F)
      → IsDistinct bs
      → IsWritten s bs (phase3 r tokens usd state_ttl now bs low s).1
  unfolding phase3 committed
  phase3-IsWritten [] low s h = tt
  phase3-IsWritten (b ∷ bs) low s (fresh, distinct) = (
    phase3_fresh b.key bs _ _ fresh ∙ rw (eq_refl b.key),
    All-both _ bs (λ b' f w. w ∙ charged_hash-put s b.key _ b' f.1) fresh
        (phase3-IsWritten bs _ _ distinct),
  )

-- The least balance over the dimensions that are enforced.
module _ {F : Type 0} ⦃d : Float F⦄ where
  open d use {lt, sub}

  -- `low` bounds every enforced balance from below.
  abbrev pub IsBelow : (Bucket F → F) → (Bucket F → F) → Option F → List (Bucket F) → Type 0
  IsBelow limit left low =
      All λ b. (lt nought (limit b) ≡ false) ⊎ ((m : F) × (low ≡ some m) × (m ≼ left b))

  -- `low` is the balance of a bucket that is enforced.
  abbrev pub IsOneOf : (Bucket F → F) → (Bucket F → F) → Option F → List (Bucket F) → Type 0
  IsOneOf limit left low [] = ⊥
  IsOneOf limit left low (b ∷ bs) =
      ((lt nought (limit b) ≡ true) × (low ≡ some (left b))) ⊎ IsOneOf limit left low bs

  -- What the loop carries on: no minimum is given up for a greater one.
  abbrev IsLess : Option F → Option F → Type 0
  IsLess none new = Unit
  IsLess (some m) new = (n : F) × (new ≡ some n) × (n ≼ m)

  -- The loop of phase 3 on one of the two minima.
  pub least : (Bucket F → F) → (Bucket F → F) → Option F → List (Bucket F) → Option F
  least limit left low [] = low
  least limit left low (b ∷ bs) = least limit left (lower (lt nought (limit b)) (left b) low) bs

  module _ (laws : IsOrdered F) (limit left : Bucket F → F) where
    open laws use {lt_irrefl, lt_asym, le_trans}

    lower-IsLess : (e : Bool) (x : F) (o : Option F) → IsLess o (lower e x o)
    unfolding lower
    lower-IsLess e x none = tt
    lower-IsLess true x (some m) = elim (Bool-cases (lt x m)) [
      | inl h ↦ rw h (x, refl, lt_asym x m h)
      | inr h ↦ rw h (m, refl, lt_irrefl m)
    ]
    lower-IsLess false x (some m) = (m, refl, lt_irrefl m)

    lower-le : (x : F) (o : Option F) → (m : F) × (lower true x o ≡ some m) × (m ≼ x)
    unfolding lower
    lower-le x none = (x, refl, lt_irrefl x)
    lower-le x (some m) = elim (Bool-cases (lt x m)) [
      | inl h ↦ rw h (x, refl, lt_irrefl x)
      | inr h ↦ rw h (m, refl, h)
    ]

    IsLess-trans : (o p q : Option F) → IsLess o p → IsLess p q → IsLess o q
    IsLess-trans none p q h k = tt
    IsLess-trans (some m) p q (n, e, h) k =
        let (n', e', h') = subst (λ o. IsLess o q) e k in (n', e', le_trans n' n m h' h)

    least-IsLess : (bs : List (Bucket F)) (o : Option F) → IsLess o (least limit left o bs)
    unfolding least
    least-IsLess [] none = tt
    least-IsLess [] (some m) = (m, refl, lt_irrefl m)
    least-IsLess (b ∷ bs) o =
        let p = lower (lt nought (limit b)) (left b) o in
        IsLess-trans o p (least limit left p bs) (lower-IsLess (lt nought (limit b)) (left b) o)
          (least-IsLess bs p)

    least-le :
        (x : F) (o : Option F) (bs : List (Bucket F))
        → (n : F) × (least limit left (lower true x o) bs ≡ some n) × (n ≼ x)
    least-le x o bs =
        let (m, e, h) = lower-le x o in
        let low = least limit left (lower true x o) bs in
        let (n, e', h') = subst (λ p. IsLess p low) e (least-IsLess bs (lower true x o)) in
        (n, e', le_trans n m x h' h)

    pub least-IsBelow :
        (bs : List (Bucket F)) (o : Option F) → IsBelow limit left (least limit left o bs) bs
    unfolding least
    least-IsBelow [] o = tt
    least-IsBelow (b ∷ bs) o = (
      elim (Bool-cases (lt nought (limit b))) [
        | inl e ↦ inr (rw e (least-le (left b) o bs))
        | inr e ↦ inl e
      ],
      least-IsBelow bs (lower (lt nought (limit b)) (left b) o),
    )

    lower-cases :
        (e : Bool) (x : F) (o : Option F)
        → (lower e x o ≡ o) ⊎ ((e ≡ true) × (lower e x o ≡ some x))
    unfolding lower
    lower-cases true x none = inr (refl, refl)
    lower-cases false x none = inl refl
    lower-cases true x (some m) = ground arith
    lower-cases false x (some m) = inl refl

    pub least-IsOneOf :
        (bs : List (Bucket F)) (o : Option F)
        → (least limit left o bs ≡ o) ⊎ IsOneOf limit left (least limit left o bs) bs
    unfolding least
    least-IsOneOf [] o = inl refl
    least-IsOneOf (b ∷ bs) o =
        let p = lower (lt nought (limit b)) (left b) o in
        elim (least-IsOneOf bs p) [
          | inr later ↦ inr (inr later)
          | inl same ↦ elim (lower-cases (lt nought (limit b)) (left b) o) [
            | inl old ↦ inl (same ∙ old)
            | inr (e, new) ↦ inr (inl (e, same ∙ new))
          ]
        ]

-- The minima of phase 3 are such loops.
module _ {F : Type 0} ⦃d : Float F⦄ (r : Redis F) (tokens usd state_ttl now : F) where
  open d use {sub}

  pub phase3-least :
      (bs : List (Bucket F)) (low : Minima F) (s : Store F)
      → let m = (phase3 r tokens usd state_ttl now bs low s).0 in
        (m.min_tokens
          ≡ least (λ b. b.token_limit) (λ b. sub b.computed_tokens tokens) low.min_tokens bs)
        × (m.min_usd ≡ least (λ b. b.usd_limit) (λ b. sub b.computed_usd usd) low.min_usd bs)
  unfolding phase3 least
  phase3-least [] low s = (refl, refl)
  phase3-least (b ∷ bs) low s = phase3-least bs _ _
