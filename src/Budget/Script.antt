-- ===== src/Budget/Script.antt =====
-- gateway/internal/budget/checkAndDecrement.lua: one atomic run of the script, on the state of the
-- Redis server. `none` is a run that raises an error; a number that is missing from ARGV is taken for
-- one at once.
pub mod Refill
pub mod Admission
pub mod Commit
pub mod Decide
pub mod Solvency
use budget_governor.Prelude.{
  ℕ, ◌+◌, ◌-◌, ◌*◌, String, Bool, ◌&&◌, ◌||◌, Option, none, some, List, [], ◌∷◌, str_eq,
  if◌then◌else◌, ◌>>=◌, get_elem?,
}
use budget_governor.Prelude.Int.{ℤ, pos, negsuc}
use budget_governor.Prelude.Float.{Float, nought}

-- The hash of one bucket; a missing key has no field. `ttl` is what EXPIRE was last given.
pub record Hash (F : Type 0) : Type 0 where
  pub tokens_remaining : Option F
  pub usd_remaining : Option F
  pub last_refill_ts : Option F
  pub ttl : Option ℤ

abbrev pub Store : Type 0 → Type 0
Store F = String → Hash F

abbrev pub put : {F : Type 0} → Store F → String → Hash F → Store F
put s key h j = if str_eq j key then h else s j

-- What Lua and Redis do with numbers as texts, each given by the number that the text denotes.
pub record Redis (F : Type 0) : Type 0 where
  -- tostring, which keeps 14 digits
  pub tostring : F → F
  -- the sum that HINCRBYFLOAT stores
  pub incr : F → F → F

-- The array that the script returns.
pub record Reply (F : Type 0) : Type 0 where
  pub flag : ℤ
  pub index : ℤ
  pub tokens : F
  pub usd : F

-- The entries for one index of `computed_tokens`, `computed_usd`, `token_limits`, `usd_limits`.
pub record Bucket (F : Type 0) : Type 0 where
  pub key : String
  pub token_limit : F
  pub usd_limit : F
  pub computed_tokens : F
  pub computed_usd : F

-- The locals `min_remaining_tokens` and `min_remaining_usd`; `none` is nil.
pub record Minima (F : Type 0) : Type 0 where
  pub min_tokens : Option F
  pub min_usd : Option F

-- ARGV[n], from 1
abbrev pub argument : {F : Type 0} → List F → ℕ → Option F
argument argv n = get_elem? argv (n - 1)

abbrev pub or_else : {F : Type 0} → Option F → F → F
or_else none x = x
or_else (some y) x = y

module _ {F : Type 0} ⦃d : Float F⦄ where
  open d use {add, sub, mul, div, lt, of_int, trunc}

  -- redis.call('TIME'), in seconds
  unfoldable pub now_of : ℕ → ℕ → F
  now_of sec usec = add (of_int (pos sec)) (div (of_int (pos usec)) (of_int (pos 1_000_000)))

  -- One balance after the time that has passed; an unlimited one is left alone.
  unfoldable pub refill : F → F → F → F → F
  refill limit remaining elapsed per_sec =
      if lt nought limit
      then (let new = add remaining (mul elapsed per_sec) in if lt limit new then limit else new)
      else remaining

  unfoldable pub elapsed_since : F → F → F
  elapsed_since now last =
      let elapsed = sub now last in if lt elapsed nought then nought else elapsed

  -- The body of phase 1, for one key.
  unfoldable pub compute : F → String → F → F → F → F → Hash F → Bucket F
  compute now key token_limit usd_limit tokens_per_sec usd_per_sec h =
      let elapsed = elapsed_since now (or_else h.last_refill_ts now) in
      record {
        key = key;
        token_limit = token_limit;
        usd_limit = usd_limit;
        computed_tokens =
            refill token_limit (or_else h.tokens_remaining token_limit) elapsed tokens_per_sec;
        computed_usd = refill usd_limit (or_else h.usd_remaining usd_limit) elapsed usd_per_sec;
      }

  -- Phase 1, from key number i on: every balance is computed before anything is written.
  unfoldable pub phase1 : Store F → F → List F → ℕ → List String → Option (List (Bucket F))
  phase1 s now argv i [] = some []
  phase1 s now argv i (key ∷ keys) = do
    let base = 3 + 4 * (i - 1)
    token_limit ← argument argv (base + 1)
    usd_limit ← argument argv (base + 2)
    tokens_per_sec ← argument argv (base + 3)
    usd_per_sec ← argument argv (base + 4)
    rest ← phase1 s now argv (i + 1) keys
    some (compute now key token_limit usd_limit tokens_per_sec usd_per_sec (s key) ∷ rest)

  -- One of the two tests of phase 2 stops at this bucket.
  unfoldable pub is_short : F → F → Bucket F → Bool
  is_short tokens usd b =
      (lt nought b.token_limit && lt b.computed_tokens tokens)
      || (lt nought b.usd_limit && lt b.computed_usd usd)

  -- Phase 2, from key number i on: the first bucket that is short.
  unfoldable pub phase2 : F → F → ℕ → List (Bucket F) → Option (ℕ × Bucket F)
  phase2 tokens usd i [] = none
  phase2 tokens usd i (b ∷ bs) =
      if is_short tokens usd b then some (i, b) else phase2 tokens usd (i + 1) bs

  unfoldable pub lower : Bool → F → Option F → Option F
  lower enforced x none = if enforced then some x else none
  lower enforced x (some m) = if enforced && lt x m then some x else some m

  module _ (r : Redis F) where
    -- What phase 3 stores for one bucket.
    unfoldable pub committed : F → F → F → F → Store F → Bucket F → Hash F
    committed tokens usd state_ttl now s b = record {
      tokens_remaining = some (r.tostring (sub b.computed_tokens tokens));
      usd_remaining = some (r.tostring (sub b.computed_usd usd));
      last_refill_ts = some (r.tostring now);
      ttl = if lt nought state_ttl then some (trunc state_ttl) else (s b.key).ttl;
    }

    -- Phase 3: every bucket is written, and the least balances are remembered.
    unfoldable pub phase3 :
        F → F → F → F → List (Bucket F) → Minima F → Store F → Minima F × Store F
    phase3 tokens usd state_ttl now [] low s = (low, s)
    phase3 tokens usd state_ttl now (b ∷ bs) low s =
        phase3 tokens usd state_ttl now bs
          (record {
            min_tokens =
                lower (lt nought b.token_limit) (sub b.computed_tokens tokens) low.min_tokens;
            min_usd = lower (lt nought b.usd_limit) (sub b.computed_usd usd) low.min_usd;
          })
          (put s b.key (committed tokens usd state_ttl now s b))

    -- Phases 2 and 3.
    unfoldable pub decide : F → F → F → F → List (Bucket F) → Store F → Reply F × Store F
    decide tokens usd state_ttl now bs s = elim (phase2 tokens usd 1 bs) [
      | some (i, b) ↦ (
        record { flag = pos 0; index = pos i; tokens = b.computed_tokens; usd = b.computed_usd },
        s,
      )
      | none ↦
          let (low, s') =
            phase3 tokens usd state_ttl now bs (record { min_tokens = none; min_usd = none }) s in
          (
            record {
              flag = pos 1;
              index = pos 0;
              tokens = or_else low.min_tokens nought;
              usd = or_else low.min_usd nought;
            },
            s',
          )
    ]

    -- From TIME on.
    unfoldable pub check :
        ℕ → ℕ → List String → List F → F → F → F → Store F → Option (Reply F × Store F)
    check sec usec keys argv tokens usd state_ttl s = do
      let now = now_of sec usec
      buckets ← phase1 s now argv 1 keys
      some (decide tokens usd state_ttl now buckets s)

    unfoldable pub run : ℕ → ℕ → List String → List F → Store F → Option (Reply F × Store F)
    run sec usec keys argv s = do
      tokens ← argument argv 1
      usd ← argument argv 2
      state_ttl ← argument argv 3
      if lt tokens nought || lt usd nought
          then some (record { flag = pos 0; index = negsuc 0; tokens = nought; usd = nought }, s)
          else check sec usec keys argv tokens usd state_ttl s
