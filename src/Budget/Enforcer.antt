-- ===== src/Budget/Enforcer.antt =====
-- gateway/internal/budget/bucket.go: `Enforcer`, with the Redis server that it talks to.
pub mod Marshal
pub mod Eval
pub mod Verdict
pub mod Explained
pub mod Overdraft
pub mod Refund
use budget_governor.Prelude.{
  ℕ, zero, suc, String, Bool, true, false, ◌&&◌, Option, none, some, List, [], ◌∷◌, map, not, ◌==◌,
  if◌then◌else◌, get_elem?,
}
use budget_governor.Prelude.Int.{ℤ, pos, negsuc, ◌-ℤ◌, int64, ltb_ℤ, eqb_ℤ}
use budget_governor.Prelude.Float.{Float, nought}
use budget_governor.Budget.Types.{
  Scope, RejectReason, no_reason, invalid_request, scope_reason, Limits, BucketRef, Decision,
}
use budget_governor.Budget.Script.{Hash, Store, Redis, Reply, or_else, put, run}

-- What becomes of one command: it is answered, it never arrives, its answer is lost, or `resent n ok`:
-- its answer is lost n + 1 times and each time go-redis sends it again, where the last attempt arrives
-- and is answered if `ok`. main.go leaves MaxRetries at its default, so there are at most three more
-- attempts; here there may be any number. An attempt that never arrives leaves no trace beside others.
pub data Delivery : Type 0 where
  answered lost_request lost_answer : Delivery
  resent : ℕ → Bool → Delivery

-- No answer is lost and asked for again.
abbrev pub is_once : Delivery → Bool
is_once (resent n ok) = false
is_once _ = true

abbrev pub is_answered : Delivery → Bool
is_answered answered = true
is_answered lost_request = false
is_answered lost_answer = false
is_answered (resent n ok) = ok

unfoldable pub repeat : {A : Type 0} → ℕ → (A → A) → A → A
repeat zero f x = x
repeat (suc n) f x = repeat n f (f x)

-- The commands of one `eval`, in the order in which they may be sent, and the time of day at which
-- the script runs, each time that it does.
pub record Weather : Type 0 where
  pub evalsha : Delivery
  pub eval : Delivery
  pub load : Delivery
  pub sec : ℕ
  pub usec : ℕ

-- The server: the hashes, and whether its script cache holds the script. The client: whether `sha`
-- is set. `runs` counts the runs of the script, for the proofs alone.
pub record System (F : Type 0) : Type 0 where
  pub store : Store F
  pub cached : Bool
  pub sha_set : Bool
  pub state_ttl : ℤ
  pub runs : ℕ

-- An `interface{}` of an answer.
pub data Value (F : Type 0) : Type 0 where
  integer : ℤ → Value F
  float : F → Value F
  text : String → Value F
  other : Value F

-- What a command gives to its caller.
pub data Answer (F : Type 0) : Type 0 where
  reply : List (Value F) → Answer F
  no_script : Answer F
  failed : Answer F

pub data Outcome (F : Type 0) : Type 0 where
  decided : Decision F → Outcome F
  no_refs unavailable bad_shape : Outcome F

module _ {F : Type 0} ⦃d : Float F⦄ where
  open d use {sub, lt, of_int, trunc, scan}

  -- Redis turns each number of the array into an integer.
  unfoldable pub convert : Reply F → List (Value F)
  convert r =
      integer r.flag ∷ integer r.index ∷ integer (trunc r.tokens) ∷ integer (trunc r.usd) ∷ []

  unfoldable pub to_int64 : Value F → ℤ
  to_int64 (integer n) = n
  to_int64 _ = pos 0

  unfoldable pub to_float64 : Value F → F
  to_float64 (integer n) = of_int n
  to_float64 (float x) = x
  to_float64 (text s) = scan s
  to_float64 other = nought

  -- The four limits of each ref, one after the other.
  unfoldable pub limit_args : List (BucketRef F) → List F
  limit_args [] = []
  limit_args (r ∷ refs) =
      of_int r.limits.token_limit
      ∷ r.limits.dollar_limit
      ∷ r.limits.refill_tokens_per_sec
      ∷ r.limits.refill_usd_per_sec
      ∷ limit_args refs

  -- `argv`, as the numbers that the script reads
  unfoldable pub arguments : ℤ → F → ℤ → List (BucketRef F) → List F
  arguments tokens usd state_ttl refs = of_int tokens ∷ usd ∷ of_int state_ttl ∷ limit_args refs

  unfoldable pub keys_of : List (BucketRef F) → List String
  keys_of [] = []
  keys_of (r ∷ refs) = r.key ∷ keys_of refs

  -- The ref of number n, from 1.
  unfoldable pub ref_at : List (BucketRef F) → ℤ → Option (BucketRef F)
  ref_at refs (pos (suc i)) = get_elem? refs i
  ref_at refs _ = none

  -- The scope and the reason of a ref, if the index is in range.
  unfoldable pub explain_ref : Option (BucketRef F) → Option Scope × RejectReason
  explain_ref (some r) = (some r.scope, scope_reason r.scope)
  explain_ref none = (none, no_reason)

  -- Why the script refused.
  unfoldable pub explain : List (BucketRef F) → ℤ → Option Scope × RejectReason
  unfolding explain_ref ref_at
  explain refs (negsuc zero) = (none, invalid_request)
  explain refs n = explain_ref (ref_at refs n)

  -- The part of `CheckAndDecrement` behind `eval`.
  unfoldable pub decode : List (BucketRef F) → List (Value F) → Outcome F
  unfolding to_int64 to_float64
  decode refs (v0 ∷ v1 ∷ v2 ∷ v3 ∷ []) =
      let allowed = eqb_ℤ (to_int64 v0) (pos 1) in
      let (scope, reason) = (if allowed then (none, no_reason) else explain refs (to_int64 v1)) in
      decided (record {
        allowed = allowed;
        reason = reason;
        failed_scope = scope;
        remaining_tokens = to_float64 v2;
        remaining_usd = to_float64 v3;
      })
  decode refs _ = bad_shape

  abbrev pub is_zero : F → Bool
  is_zero x = not (lt x nought) && not (lt nought x)

  module _ (r : Redis F) where
    -- The script runs on the server.
    unfoldable pub execute : Weather → List String → List F → System F → Answer F × System F
    execute w keys argv y = elim (run r w.sec w.usec keys argv y.store) [
      | none ↦ (failed, record y { runs = suc y.runs })
      | some (out, s) ↦ (reply (convert out), record y { store = s; runs = suc y.runs })
    ]

    -- A command reaches the server and its answer the client, or not.
    unfoldable pub send :
        Delivery → (System F → Answer F × System F) → System F → Answer F × System F
    send answered command y = command y
    send lost_request command y = (failed, y)
    send lost_answer command y = (failed, (command y).1)
    send (resent n ok) command y =
        let y' = repeat (suc n) (λ z. (command z).1) y in
        if ok then command y' else (failed, (command y').1)

    unfoldable pub evalsha : Weather → List String → List F → System F → Answer F × System F
    evalsha w keys argv y = if y.cached then execute w keys argv y else (no_script, y)

    -- EVAL also puts the script into the cache.
    unfoldable pub eval_source : Weather → List String → List F → System F → Answer F × System F
    eval_source w keys argv y = execute w keys argv (record y { cached = true })

    -- `LoadScript`; only an answer sets `sha`.
    unfoldable pub load_script : Delivery → System F → System F
    load_script answered y = record y { cached = true; sha_set = true }
    load_script lost_request y = y
    load_script lost_answer y = record y { cached = true }
    load_script (resent n ok) y =
        if ok then record y { cached = true; sha_set = true } else record y { cached = true }

    -- EVAL, then the script is loaded again if that went well.
    unfoldable pub eval_again : Weather → List String → List F → System F → Answer F × System F
    eval_again w keys argv y =
        let (a, y') = send w.eval (eval_source w keys argv) y in
        elim a [ reply vs ↦ (reply vs, load_script w.load y') | _ ↦ (failed, y') ]

    unfoldable pub eval : Weather → List String → List F → System F → Answer F × System F
    eval w keys argv y =
        let (a, y') = send w.evalsha (evalsha w keys argv) y in
        if y.sha_set
        then (elim a [
          | reply vs ↦ (reply vs, y')
          | no_script ↦ eval_again w keys argv y'
          | failed ↦ (failed, y')
        ])
        else eval_again w keys argv y

    unfoldable pub check_and_decrement :
        Weather → List (BucketRef F) → ℤ → F → System F → Outcome F × System F
    check_and_decrement w [] tokens usd y = (no_refs, y)
    check_and_decrement w (b ∷ bs) tokens usd y =
        let refs = b ∷ bs in
        let (a, y') = eval w (keys_of refs) (arguments tokens usd y.state_ttl refs) y in
        elim a [ reply vs ↦ (decode refs vs, y') | _ ↦ (unavailable, y') ]

    -- HINCRBYFLOAT; a missing field counts from zero.
    abbrev incr_tokens : String → F → Store F → Store F
    incr_tokens key delta s = put s key (record (s key) {
      tokens_remaining = some (r.incr (or_else (s key).tokens_remaining nought) delta);
    })

    abbrev incr_usd : String → F → Store F → Store F
    incr_usd key delta s = put s key (record (s key) {
      usd_remaining = some (r.incr (or_else (s key).usd_remaining nought) delta);
    })

    -- The commands for one ref.
    unfoldable pub adjust : F → F → BucketRef F → Store F → Store F
    adjust tokens usd b s =
        let s' =
          (if ltb_ℤ (pos 0) b.limits.token_limit && not (is_zero tokens)
            then incr_tokens b.key tokens s
            else s) in
        if lt nought b.limits.dollar_limit && not (is_zero usd) then incr_usd b.key usd s' else s'

    unfoldable pub adjust_all : F → F → List (BucketRef F) → Store F → Store F
    adjust_all tokens usd [] s = s
    adjust_all tokens usd (b ∷ bs) s = adjust_all tokens usd bs (adjust tokens usd b s)

    -- `false` is an error of the pipeline, which is sent, and sent again, as a whole.
    unfoldable pub send_pipeline : Delivery → (Store F → Store F) → Store F → Bool × Store F
    send_pipeline answered commands s = (true, commands s)
    send_pipeline lost_request commands s = (false, s)
    send_pipeline lost_answer commands s = (false, commands s)
    send_pipeline (resent n ok) commands s = (ok, commands (repeat (suc n) commands s))

    unfoldable pub reconcile :
        Delivery → List (BucketRef F) → ℤ → F → ℤ → F → System F → Bool × System F
    reconcile v refs estimated_tokens estimated_usd actual_tokens actual_usd y =
        let tokens = of_int (int64 (estimated_tokens -ℤ actual_tokens)) in
        let usd = sub estimated_usd actual_usd in
        let (done, s) = send_pipeline v (adjust_all tokens usd refs) y.store in
        if is_zero tokens && is_zero usd then (true, y) else (done, record y { store = s })
