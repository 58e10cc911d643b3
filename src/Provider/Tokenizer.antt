-- ===== src/Provider/Tokenizer.antt =====
-- gateway/internal/provider/tokenizer.go; `NormalizeModel` stands with the prices.
pub mod Bounds
use Prim.Native.Char.{code}
use Prim.Native.String
use budget_governor.Provider.Types.{Message}
use budget_governor.Prelude.{
  ℕ, zero, suc, ◌+◌, ◌/◌, String, Bool, ◌&&◌, ◌||◌, not, Option, none, some, List, [], ◌∷◌, ltb,
  str_eq, length, if◌then◌else◌, ◌>>=◌,
}

-- The character classes of Go's package `unicode`.
pub record Unicode : Type 0 where
  pub is_space : ℕ → Bool
  pub is_letter : ℕ → Bool
  pub is_digit : ℕ → Bool

-- []rune(s)
unfoldable pub runes : String → List ℕ
runes String.[] = []
runes (String.◌∷◌ c s) = code c ∷ runes s

-- An inner loop: the length of the run that it passes, and where it stops.
unfoldable pub run_length : (ℕ → Bool) → List ℕ → ℕ
run_length p [] = 0
run_length p (r ∷ rs) = let n = run_length p rs in if p r then suc n else 0

unfoldable pub after_run : (ℕ → Bool) → List ℕ → List ℕ
after_run p [] = []
after_run p (r ∷ rs) = let rest = after_run p rs in if p r then rest else r ∷ rs

abbrev pub at_least_one : ℕ → ℕ
at_least_one t = if ltb t 1 then 1 else t

abbrev pub word_tokens : ℕ → ℕ
word_tokens n = at_least_one (n / 4)

abbrev pub symbol_tokens : ℕ → ℕ
symbol_tokens n = at_least_one ((n + 1) / 2)

module _ (u : Unicode) where
  open u use {is_space, is_letter, is_digit}

  abbrev pub is_word : ℕ → Bool
  is_word r = is_letter r || is_digit r

  abbrev pub is_symbol : ℕ → Bool
  is_symbol r = not (is_space r) && (not (is_letter r) && not (is_digit r))

  -- One round of the outer loop: the tokens that it adds, and what is left.
  unfoldable pub step : ℕ → List ℕ → ℕ × List ℕ
  step r rs =
      if is_space r
      then (0, rs)
      else (if is_word r
          then (word_tokens (run_length is_word (r ∷ rs)), after_run is_word (r ∷ rs))
          else (symbol_tokens (run_length is_symbol (r ∷ rs)), after_run is_symbol (r ∷ rs)))

  -- The outer loop, for at most `fuel` rounds.
  unfoldable pub scan : ℕ → List ℕ → Option ℕ
  scan fuel [] = some 0
  scan zero (r ∷ rs) = none
  scan (suc fuel) (r ∷ rs) = do let (t, rest) = step r rs; n ← scan fuel rest; some (t + n)

  -- There are at most as many rounds as runes.
  unfoldable pub estimate_tokens : String → Option ℕ
  estimate_tokens s = scan (length (runes s)) (runes s)

  unfoldable pub estimate_each : List Message → Option ℕ
  estimate_each [] = some 0
  estimate_each (m ∷ messages) = do
    t ← estimate_tokens m.content
    n ← estimate_each messages
    some (t + 4 + n)

  unfoldable pub estimate_system : String → Option ℕ
  estimate_system system =
      if str_eq system "" then some 0 else do t ← estimate_tokens system; some (t + 4)

  unfoldable pub estimate_messages_tokens : String → List Message → Option ℕ
  estimate_messages_tokens system messages = do
    s ← estimate_system system
    n ← estimate_each messages
    some (s + n + 3)
