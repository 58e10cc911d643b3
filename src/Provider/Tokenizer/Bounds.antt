-- ===== src/Provider/Tokenizer/Bounds.antt =====
-- The loops of `EstimateTokens` end, and the estimate is in proportion to the text.
use mathlib.Core.Path.{subst}
use budget_governor.Prelude.{
  ℕ, zero, suc, ◌+◌, ◌*◌, ◌≤◌, String, Bool, true, false, Option, some, List, [], ◌∷◌, ◌≡◌, refl,
  inl, inr, arith, length, Bool-cases, if◌then◌else◌, str_eq, eq_iff, sym,
}
use budget_governor.Provider.Types.{Message}
use budget_governor.Provider.Tokenizer.{
  Unicode, runes, run_length, after_run, is_word, is_symbol, word_tokens, symbol_tokens, step, scan,
  estimate_tokens, estimate_each, estimate_system, estimate_messages_tokens,
}

-- No space is a letter or a digit.
pub record IsUnicode (u : Unicode) : Type 0 where
  pub letter-not-space : (r : ℕ) → u.is_letter r ≡ true → u.is_space r ≡ false
  pub digit-not-space : (r : ℕ) → u.is_digit r ≡ true → u.is_space r ≡ false

after_run-length : (p : ℕ → Bool) (rs : List ℕ) → length (after_run p rs) ≤ length rs
unfolding after_run
after_run-length p [] = omega arith
after_run-length p (r ∷ rs) = ground (arith, after_run-length p rs)

-- Between a seventh of the runes and all of them.
abbrev IsFair : ℕ → ℕ → Type 0
IsFair t n = (t ≤ n) × (n ≤ 7 * t)

-- An estimate is there, and it is fair.
abbrev pub IsEstimate : Option ℕ → ℕ → Type 0
IsEstimate o n = (t : ℕ) × (o ≡ some t) × IsFair t n

-- An estimate with some framing for each message, and at most so much on top of the text.
abbrev pub IsFramed : Option ℕ → ℕ → ℕ → ℕ → Type 0
IsFramed o n least most = (t : ℕ) × (o ≡ some t) × (least ≤ t) × (t ≤ n + most) × (n ≤ 7 * t)

module _ (u : Unicode) where
  open u use {is_space}

  -- The runes that are not spaces.
  unfoldable pub visible : List ℕ → ℕ
  visible [] = 0
  visible (r ∷ rs) = (if is_space r then 0 else 1) + visible rs

  run_length-visible :
      (p : ℕ → Bool) (rs : List ℕ)
      → ((r : ℕ) → p r ≡ true → is_space r ≡ false)
      → visible rs ≡ run_length p rs + visible (after_run p rs)
  unfolding visible run_length after_run
  run_length-visible p [] h = omega arith
  run_length-visible p (r ∷ rs) h = ground (arith, h r, run_length-visible p rs h)

  -- All runes of a request that are not spaces.
  unfoldable pub visible_each : List Message → ℕ
  visible_each [] = 0
  visible_each (m ∷ messages) = visible (runes m.content) + visible_each messages

  module _ (laws : IsUnicode u) where
    open laws use {letter-not-space, digit-not-space}

    word-not-space : (r : ℕ) → is_word u r ≡ true → is_space r ≡ false
    word-not-space r h = ground (arith, letter-not-space r, digit-not-space r)

    symbol-not-space : (r : ℕ) → is_symbol u r ≡ true → is_space r ≡ false
    symbol-not-space r h = ground arith

    word_tokens-IsFair : (m : ℕ) → IsFair (word_tokens (suc m)) (suc m)
    word_tokens-IsFair m = ground arith

    symbol_tokens-IsFair : (m : ℕ) → IsFair (symbol_tokens (suc m)) (suc m)
    symbol_tokens-IsFair m = ground arith

    -- What a round may be: its tokens, and the text that it leaves.
    abbrev IsRound : ℕ → List ℕ → ℕ × List ℕ → Type 0
    IsRound r rs (t, rest) =
        (length rest ≤ length rs) × (n : ℕ) × (visible (r ∷ rs) ≡ n + visible rest) × IsFair t n

    run_fair :
        (p : ℕ → Bool) (cost : ℕ → ℕ) (r : ℕ) (rs : List ℕ)
        → ((r : ℕ) → p r ≡ true → is_space r ≡ false)
        → ((m : ℕ) → IsFair (cost (suc m)) (suc m))
        → p r ≡ true
        → IsRound r rs (cost (run_length p (r ∷ rs)), after_run p (r ∷ rs))
    unfolding run_length after_run
    run_fair p cost r rs sound fair e =
        let total = run_length-visible p (r ∷ rs) sound in
        rw (e, run_length, after_run)
          (
            after_run-length p rs,
            suc (run_length p rs),
            rw (e, run_length, after_run) at total,
            fair (run_length p rs),
          )

    space_fair : (r : ℕ) (rs : List ℕ) → is_space r ≡ true → IsRound r rs (0, rs)
    unfolding visible
    space_fair r rs e = (omega arith, 0, rw (e, visible) refl, (omega arith, omega arith))

    symbol_otherwise : (r : ℕ) → is_space r ≡ false → is_word u r ≡ false → is_symbol u r ≡ true
    symbol_otherwise r e w = ground arith

    step_fair : (r : ℕ) (rs : List ℕ) → IsRound r rs (step u r rs)
    unfolding step
    step_fair r rs = elim (Bool-cases (is_space r)) [
      | inl e ↦ rw e (space_fair r rs e)
      | inr e ↦ elim (Bool-cases (is_word u r)) [
        | inl w ↦
            rw (e, w) (run_fair (is_word u) word_tokens r rs word-not-space word_tokens-IsFair w)
        | inr w ↦
            rw (e, w)
              (run_fair (is_symbol u) symbol_tokens r rs symbol-not-space symbol_tokens-IsFair
                (symbol_otherwise r e w))
      ]
    ]

    scan_fair :
        (fuel : ℕ) (rs : List ℕ) → length rs ≤ fuel → IsEstimate (scan u fuel rs) (visible rs)
    unfolding scan visible
    scan_fair fuel [] h = (0, refl, (omega arith, omega arith))
    scan_fair zero (r ∷ rs) h = absurd (omega arith)
    scan_fair (suc fuel) (r ∷ rs) h =
        let (short, n, split, (few, many)) = step_fair r rs in
        let (t, e, (few', many')) = scan_fair fuel (step u r rs).1 (omega (arith, short)) in
        (
          (step u r rs).0 + t,
          rw e refl,
          (omega (arith, split, few, few'), omega (arith, split, many, many')),
        )

    -- The loops end on every text, and the estimate is at most the number of runes that are not
    -- spaces, and at least a seventh of it, if no space is a letter or a digit.
    pub estimate_tokens-IsEstimate :
        (s : String) → IsEstimate (estimate_tokens u s) (visible (runes s))
    unfolding estimate_tokens
    estimate_tokens-IsEstimate s = scan_fair (length (runes s)) (runes s) (omega arith)

    estimate_each-IsFramed :
        (messages : List Message)
        → let frame = 4 * length messages in
          IsFramed (estimate_each u messages) (visible_each messages) frame frame
    unfolding estimate_each visible_each
    estimate_each-IsFramed [] = (0, refl, omega arith, omega arith, omega arith)
    estimate_each-IsFramed (m ∷ messages) =
        let (t, e, (few, many)) = estimate_tokens-IsEstimate m.content in
        let (n, e', frame, few', many') = estimate_each-IsFramed messages in
        (
          t + 4 + n,
          rw (e, e'),
          omega (arith, frame),
          omega (arith, few, few'),
          omega (arith, many, many'),
        )

    nothing_visible : visible (runes "") ≡ 0
    unfolding runes visible
    nothing_visible = refl

    estimate_system-IsFramed :
        (system : String) → IsFramed (estimate_system u system) (visible (runes system)) 0 4
    unfolding estimate_system
    estimate_system-IsFramed system =
        let (t, e, (few, many)) = estimate_tokens-IsEstimate system in
        elim (Bool-cases (str_eq system "")) [
          | inl empty ↦
              let none_visible : visible (runes system) ≡ 0 =
                subst (λ x. visible (runes x) ≡ 0) (sym ((eq_iff system "").0 empty))
                  nothing_visible in
              (0, rw empty, omega arith, omega (arith, none_visible), omega (arith, none_visible))
          | inr other ↦ (t + 4, rw (other, e), omega arith, omega (arith, few), omega (arith, many))
        ]

    -- If no space is a letter or a digit, every request has an estimate: at least 3 and 4 for each
    -- message, at most 7 and 4 for each message on top of the runes that are not spaces, and at
    -- least a seventh of those.
    pub estimate_messages_tokens-IsFramed :
        (system : String) (messages : List Message)
        → let text = visible (runes system) + visible_each messages in
          IsFramed
            (estimate_messages_tokens u system messages)
            text
            (4 * length messages + 3)
            (4 * length messages + 7)
    unfolding estimate_messages_tokens
    estimate_messages_tokens-IsFramed system messages =
        let (s, e, _, few, many) = estimate_system-IsFramed system in
        let (n, e', frame, few', many') = estimate_each-IsFramed messages in
        (
          s + n + 3,
          rw (e, e'),
          omega (arith, frame),
          omega (arith, few, few'),
          omega (arith, many, many'),
        )
