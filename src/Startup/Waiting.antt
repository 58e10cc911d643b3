-- ===== src/Startup/Waiting.antt =====
-- When a wait ends.
use mathlib.Core.Path.{subst}
use budget_governor.Prelude.{
  ℕ, zero, suc, ◌+◌, ◌≤◌, ◌<◌, Bool, true, false, ◌≡◌, refl, arith, if-both, inl, inr, Bool-cases,
  ltb, ltb→lt,
}
use budget_governor.Startup.{Wait, reached, interrupted, gave_up, wait_from, wait_for}

module _ (ping interrupts : ℕ → Bool) where
  -- No ping from `i` on before `n` was answered, and no wait behind one was interrupted.
  abbrev pub IsSilent : ℕ → ℕ → Type 0
  IsSilent i n = (k : ℕ) → i ≤ k → k < n → (ping k ≡ false) × (interrupts k ≡ false)

  abbrev pub IsWait : ℕ → ℕ → Wait → Type 0
  IsWait i limit (reached n) = IsSilent i n × (n < limit) × (ping n ≡ true)
  IsWait i limit (interrupted n) =
      IsSilent i n × (n < limit) × (ping n ≡ false) × (interrupts n ≡ true)
  IsWait i limit (gave_up n) = IsSilent i limit × (n ≡ limit)

  IsSilent-start : (i : ℕ) → IsSilent i i
  IsSilent-start i k h h' = absurd (omega (arith, h, h'))

  module _ (i : ℕ) (p : ping i ≡ false) (q : interrupts i ≡ false) where
    IsSilent-cons : (n : ℕ) → IsSilent (suc i) n → IsSilent i n
    IsSilent-cons n f k h h' = elim (Bool-cases (ltb i k)) [
      | inl later ↦ f k (ltb→lt i k later) h'
      | inr here ↦
          let same : i ≡ k = ground (arith, here, h) in
          subst (λ m. (ping m ≡ false) × (interrupts m ≡ false)) same (p, q)
    ]

    IsWait-cons : (limit : ℕ) (w : Wait) → IsWait (suc i) limit w → IsWait i limit w
    IsWait-cons limit (reached n) (f, bound, e) = (IsSilent-cons n f, bound, e)
    IsWait-cons limit (interrupted n) (f, bound, e, e') = (IsSilent-cons n f, bound, e, e')
    IsWait-cons limit (gave_up n) (f, e) = (IsSilent-cons limit f, e)

  wait_from-IsWait : (left i : ℕ) → IsWait i (i + left) (wait_from ping interrupts left i)
  unfolding wait_from
  wait_from-IsWait zero i = let e : i + 0 ≡ i = omega arith in rw e (IsSilent-start i, refl)
  wait_from-IsWait (suc left) i =
      let e : i + suc left ≡ suc i + left = omega arith in
      let ih = wait_from-IsWait left (suc i) in
      let bound : i < i + suc left = omega arith in
      if-both (IsWait i (i + suc left)) (ping i) _ _ (λ up. (IsSilent-start i, bound, up))
        (λ down.
          if-both (IsWait i (i + suc left)) (interrupts i) _ _
            (λ stop. (IsSilent-start i, bound, down, stop))
            (λ go_on. rw e (IsWait-cons i down go_on (suc i + left) _ ih)))

  -- A wait ends after at most 30 pings: at the first that is answered, or behind the first that is not
  -- while the context is done, whichever comes first, or else after exactly 30 that are not answered.
  pub wait_for-IsWait : IsWait 0 30 (wait_for ping interrupts)
  unfolding wait_for
  wait_for-IsWait = wait_from-IsWait 30 0
