-- ===== src/Budget/Rate.antt =====
-- One token bucket of gateway/internal/budget over time: the runs of checkAndDecrement.lua and the
-- corrections of `Reconcile` that any number of gateways send to the server, in any order.
pub mod Rounding
pub mod Credit
pub mod Runs
pub mod Steps
pub mod Limit
use budget_governor.Prelude.{
  ℕ, suc, ◌+◌, ◌*◌, ◌/◌, ◌^◌, ◌≤◌, ◌≡◌, String, false, none, some, List, ◌∷◌, ◌++◌, str_eq,
}
use budget_governor.Prelude.Int.{ℤ, pos, pos_part, ◌≤ℤ◌, ◌+ℤ◌, ◌-ℤ◌, ltb_ℤ}
use budget_governor.Prelude.Float.{Float, nought, ◌≼◌}
use budget_governor.Budget.Types.{Limits, BucketRef}
use budget_governor.Budget.Script.{Store, Redis, Reply, run, now_of}
use budget_governor.Budget.Enforcer.{keys_of, arguments, adjust}
use budget_governor.Budget.Enforcer.Marshal.{IsFreshRef, IsDistinctRefs}

-- A number is a whole multiple of some smallest number, as each float64 is: `units` counts it. An
-- operation rounds, and so do printing and HINCRBYFLOAT: by at most `slack` smallest numbers, for
-- amounts of a bounded size. `one` is the number 1.
pub record IsClose {F : Type 0} ⦃d : Float F⦄ (r : Redis F) : Type 0 where
  pub units : F → ℤ
  pub one : ℕ
  pub slack : ℕ
  pub units_nought : units nought ≡ pos 0
  pub lt_units : (x y : F) → d.lt x y ≡ ltb_ℤ (units x) (units y)
  pub add-le : (x y : F) → units (d.add x y) ≤ℤ units x +ℤ units y +ℤ pos slack
  pub sub-le : (x y : F) → units (d.sub x y) ≤ℤ units x -ℤ units y +ℤ pos slack
  pub mul-le :
      (x y : F)
      → nought ≼ x
      → nought ≼ y
      → one * pos_part (units (d.mul x y)) ≤ pos_part (units y) * pos_part (units x) + one * slack
  pub tostring-le : (x : F) → units (r.tostring x) ≤ℤ units x +ℤ pos slack
  pub le-tostring : (x : F) → units x ≤ℤ units (r.tostring x) +ℤ pos slack
  pub incr-le : (x y : F) → units (r.incr x y) ≤ℤ units x +ℤ units y +ℤ pos slack

-- The hashes; for the proofs alone the time of the last run of the script, what the bucket has been
-- charged less what was given back, and the number of writes.
pub record Account (F : Type 0) : Type 0 where
  pub store : Store F
  pub clock : F
  pub spent : ℤ
  pub writes : ℕ

module _ {F : Type 0} ⦃d : Float F⦄ (r : Redis F) (close : IsClose r) where
  open d use {of_int}
  open close use {units}

  -- The script admits a request on this bucket, with these limits, and on others.
  pub data Charge (key : String) (limits : Limits F) (a : Account F) : Account F → Type 0 where
    charge :
        (sec usec : ℕ) (before : List (BucketRef F)) (b : BucketRef F) (after : List (BucketRef F))
        (tokens : ℤ) (usd : F) (ttl : ℤ) (out : Reply F) (s : Store F)
        → b.key ≡ key
        → b.limits ≡ limits
        → IsDistinctRefs (before ++ b ∷ after)
        → run r sec usec
            (keys_of (before ++ b ∷ after))
            (arguments tokens usd ttl (before ++ b ∷ after))
            a.store
          ≡ some (out, s)
        → out.flag ≡ pos 1
        → Charge key limits a (record {
          store = s;
          clock = now_of sec usec;
          spent = a.spent +ℤ units (of_int tokens);
          writes = suc a.writes;
        })

  -- What one command of some gateway does to the bucket of this key. Its limits do not change, and the
  -- bucket does not expire. The clock of the server may show any time.
  pub data Step (key : String) (limits : Limits F) (a : Account F) : Account F → Type 0 where
    admits : {b : Account F} → Charge key limits a b → Step key limits a b
    -- The script refuses a request, or charges other buckets.
    refuse :
        (sec usec : ℕ) (refs : List (BucketRef F)) (tokens : ℤ) (usd : F) (ttl : ℤ) (out : Reply F)
        (s : Store F)
        → IsDistinctRefs refs
        → run r sec usec (keys_of refs) (arguments tokens usd ttl refs) a.store ≡ some (out, s)
        → out.flag ≡ pos 0
        → Step key limits a (record a { store = s })
    elsewhere :
        (sec usec : ℕ) (refs : List (BucketRef F)) (tokens : ℤ) (usd : F) (ttl : ℤ) (out : Reply F)
        (s : Store F)
        → IsDistinctRefs refs
        → IsFreshRef key refs
        → run r sec usec (keys_of refs) (arguments tokens usd ttl refs) a.store ≡ some (out, s)
        → Step key limits a (record a { store = s })
    -- A reservation is corrected: a positive amount is given back, a negative one charged on top.
    correct :
        (b : BucketRef F) (tokens usd : F)
        → b.key ≡ key
        → b.limits ≡ limits
        → Step key limits a (record a {
          store = adjust r tokens usd b a.store;
          spent = a.spent -ℤ units tokens;
          writes = suc a.writes;
        })
    correct_elsewhere :
        (b : BucketRef F) (tokens usd : F)
        → str_eq key b.key ≡ false
        → Step key limits a (record a { store = adjust r tokens usd b a.store })

  -- Any number of commands.
  pub data Reach (key : String) (limits : Limits F) : Account F → Account F → Type 0 where
    start : {a : Account F} → Reach key limits a a
    next : {a b c : Account F} → Reach key limits a b → Step key limits b c → Reach key limits a c

  -- From each charge to the next the clock of the server does not go back.
  abbrev pub IsForward :
      (key : String) (limits : Limits F) (a b : Account F) → Reach key limits a b → Type 0
  IsForward key limits a b start = Unit
  IsForward key limits a b (next {b = c} before step) =
      IsForward key limits a c before × (c.clock ≼ b.clock)

  -- The bucket is not stored, so it is full, and nothing has been charged.
  pub record IsUnused (key : String) (a : Account F) : Type 0 where
    pub no_tokens : (a.store key).tokens_remaining ≡ none
    pub no_stamp : (a.store key).last_refill_ts ≡ none
    pub no_charge : a.spent ≡ pos 0
    pub no_write : a.writes ≡ 0
