-- ===== src/Examples/Budgets.antt =====
-- A reservation, a refusal and a refund on two buckets, for gateway/internal/budget.
use budget_governor.Prelude.{
  ℕ, ◌≡◌, refl, inl, inr, true, false, none, some, String, List, [], ◌∷◌, ◌⊎◌, All,
}
use budget_governor.Prelude.Int.{ℤ, pos, ◌+ℤ◌, ◌-ℤ◌, int64}
use budget_governor.Prelude.Float.{fixed, fixed_of_int, fixed-IsOrdered}
use budget_governor.Budget.Types.{
  task, agent, no_reason, over_task_budget, Limits, BucketRef, Decision, bucket_key, scope_reason,
}
use budget_governor.Budget.Script.{
  Hash, Store, Redis, Reply, Bucket, now_of, refill, elapsed_since, compute, phase1, is_short,
  phase2, lower, committed, phase3, decide, check, run,
}
use budget_governor.Budget.Script.Refill.{IsFilled, compute_bounds}
use budget_governor.Budget.Script.Admission.{Covers}
use budget_governor.Budget.Script.Decide.{
  IsCharged, IsRefused, IsMinimum, decide_all_or_nothing, decide_minima,
}
use budget_governor.Budget.Script.Solvency.{IsPrinting}
use budget_governor.Budget.Enforcer.{
  answered, lost_request, Weather, System, decided, convert, limit_args, arguments, keys_of,
  explain, decode, execute, send, repeat, resent, evalsha, eval_source, load_script, eval_again,
  eval, check_and_decrement, reconcile,
}
use budget_governor.Budget.Enforcer.Marshal.{reference, run-arguments}
use budget_governor.Budget.Enforcer.Eval.{IsAnswered, IsLost, eval_at_most_once, eval_recovers}
use budget_governor.Budget.Enforcer.Explained.{IsExplained, check_and_decrement-IsExplained}
use budget_governor.Budget.Enforcer.Overdraft.{IsRefSolvent, check_and_decrement-IsRefSolvent}
use budget_governor.Budget.Enforcer.Refund.{adjusted, reconcile_effect}

-- A Redis server that prints and adds exactly.
abbrev pub redis : Redis ℤ
redis = record { tostring = λ x. x; incr = ◌+ℤ◌ }

pub redis-IsPrinting : IsPrinting redis
redis-IsPrinting = record { tostring_mono = λ x y h. h; tostring_nought = refl }

abbrev limits : ℕ → ℕ → Limits ℤ
limits tokens dollars = record {
  token_limit = pos tokens;
  dollar_limit = fixed_of_int (pos dollars);
  refill_tokens_per_sec = fixed_of_int (pos 10);
  refill_usd_per_sec = pos 0;
}

abbrev pub refs : List (BucketRef ℤ)
refs =
    record { scope = task; key = "budget:acme:writer:42"; limits = limits 1000 2 }
    ∷ record { scope = agent; key = "budget:acme:writer:-"; limits = limits 5000 10 }
    ∷ []

abbrev pub empty : Store ℤ
empty key = record {
  tokens_remaining = none;
  usd_remaining = none;
  last_refill_ts = none;
  ttl = none;
}

-- Three millidollars.
abbrev pub usd : ℤ
usd = pos 3_000_000

-- The server has lost its scripts.
abbrev pub system : System ℤ
system = record { store = empty; cached = false; sha_set = true; state_ttl = pos 3600; runs = 0 }

abbrev pub weather : Weather
weather = record {
  evalsha = answered;
  eval = answered;
  load = lost_request;
  sec = 100;
  usec = 500_000;
}

abbrev granted : Decision ℤ
granted = record {
  allowed = true;
  reason = no_reason;
  failed_scope = none;
  remaining_tokens = fixed_of_int (pos 700);
  remaining_usd = fixed_of_int (pos 1);
}

abbrev denied : Decision ℤ
denied = record {
  allowed = false;
  reason = over_task_budget;
  failed_scope = some task;
  remaining_tokens = fixed_of_int (pos 1000);
  remaining_usd = fixed_of_int (pos 2);
}

bucket_key_test : bucket_key "acme" "writer" "42" task ≡ "budget:acme:writer:42"
unfolding bucket_key
bucket_key_test = refl

check_granted : (check_and_decrement redis weather refs (pos 300) usd system).0 ≡ decided granted
unfolding check_and_decrement eval eval_again send evalsha eval_source load_script execute run check
    phase1 decide phase2 phase3 is_short compute refill elapsed_since now_of lower committed
    arguments limit_args keys_of convert decode explain ◌+ℤ◌ ◌-ℤ◌
check_granted = refl

check_denied : (check_and_decrement redis weather refs (pos 1001) usd system).0 ≡ decided denied
unfolding check_and_decrement eval eval_again send evalsha eval_source load_script execute run check
    phase1 decide phase2 phase3 is_short compute refill elapsed_since now_of lower committed
    arguments limit_args keys_of convert decode explain ◌+ℤ◌ ◌-ℤ◌ scope_reason
check_denied = refl

abbrev keys : List String
keys = "budget:acme:writer:42" ∷ "budget:acme:writer:-" ∷ []

abbrev argv : List ℤ
argv = arguments (pos 300) usd (pos 3600) refs

abbrev expected : Reply ℤ × Store ℤ
expected = reference redis 100 500_000 refs (pos 300) usd (pos 3600) empty

run_expected : run redis 100 500_000 (keys_of refs) argv empty ≡ some (expected.0, expected.1)
run_expected = run-arguments redis 100 500_000 refs (pos 300) usd (pos 3600) empty

run-arguments_example : run redis 100 500_000 (keys_of refs) argv empty ≡ some expected
run-arguments_example = run-arguments redis 100 500_000 refs (pos 300) usd (pos 3600) empty

eval_at_most_once_example :
    let result = eval redis weather (keys_of refs) argv system in
    IsAnswered system expected.0 expected.1 result ⊎ IsLost system expected.1 result
eval_at_most_once_example =
    eval_at_most_once redis weather (keys_of refs) argv system expected.0 expected.1 refl refl
      run_expected

-- The answer is lost once and go-redis asks again: the request is charged twice.
runs_twice :
    (eval redis
      (record weather { evalsha = resent 0 true; eval = resent 0 true })
      (keys_of refs)
      argv
      system).1.runs
    ≡ 2
unfolding eval eval_again send evalsha eval_source load_script execute run check phase1 decide
    phase2 phase3 is_short compute refill elapsed_since now_of lower committed arguments limit_args
    keys_of convert repeat ◌+ℤ◌ ◌-ℤ◌
runs_twice = refl

eval_recovers_example :
    IsAnswered system expected.0 expected.1 (eval redis weather (keys_of refs) argv system)
eval_recovers_example =
    eval_recovers redis weather (keys_of refs) argv system expected.0 expected.1 refl refl
      run_expected

check_and_decrement-IsExplained_example :
    let s = (check_and_decrement redis weather refs (pos 300) usd system).1.store in
    IsExplained redis
      (pos 300)
      usd
      (λ s. s "budget:acme:-:-" ≡ empty "budget:acme:-:-")
      (now_of 100 500_000)
      (pos 3600)
      refs
      empty
      granted
      s
check_and_decrement-IsExplained_example =
    check_and_decrement-IsExplained redis (pos 300) usd weather refs "budget:acme:-:-" system
      granted (((refl, refl), tt), (tt, tt)) ((refl, refl), ((refl, refl), tt)) refl refl
      check_granted

check_and_decrement-IsRefSolvent_example :
    let s = (check_and_decrement redis weather refs (pos 300) usd system).1.store in
    All (IsRefSolvent redis s) refs
check_and_decrement-IsRefSolvent_example =
    check_and_decrement-IsRefSolvent fixed-IsOrdered redis redis-IsPrinting weather refs (pos 300)
      usd system granted (((refl, refl), tt), (tt, tt)) refl refl check_granted refl

reconcile_effect_example :
    let tokens = fixed_of_int (int64 (pos 300 -ℤ pos 120)) in
    let rest = usd -ℤ pos 1_000_000 in
    let (done, y) = reconcile redis answered refs (pos 300) usd (pos 120) (pos 1_000_000) system in
    (done ≡ true)
    × All (λ b. y.store b.key ≡ adjusted redis tokens rest b (empty b.key)) refs
    × (y.store "other" ≡ empty "other")
reconcile_effect_example =
    reconcile_effect redis refs (pos 300) usd (pos 120) (pos 1_000_000) "other" system
      (((refl, refl), tt), (tt, tt)) ((refl, refl), ((refl, refl), tt))

-- Two buckets in the middle of the script.
abbrev table : List (Bucket ℤ)
table =
    record {
      key = "a";
      token_limit = fixed_of_int (pos 1000);
      usd_limit = pos 0;
      computed_tokens = fixed_of_int (pos 400);
      computed_usd = pos 0;
    }
    ∷ record {
      key = "b";
      token_limit = fixed_of_int (pos 500);
      usd_limit = pos 0;
      computed_tokens = fixed_of_int (pos 350);
      computed_usd = pos 0;
    }
    ∷ []

abbrev charge : ℤ
charge = fixed_of_int (pos 300)

decide_all_or_nothing_example :
    let result = decide redis charge (pos 0) (pos 0) (pos 7) table empty in
    IsCharged redis charge (pos 0) (pos 0) (pos 7) table empty "c" result
    ⊎ IsRefused redis charge (pos 0) (pos 0) (pos 7) table empty result
decide_all_or_nothing_example =
    decide_all_or_nothing redis charge (pos 0) (pos 0) (pos 7) table empty "c"
      (((refl, refl), tt), (tt, tt)) ((refl, refl), ((refl, refl), tt))

table-Covers : All (Covers charge (pos 0)) table
table-Covers = ((inr refl, inl refl), ((inr refl, inl refl), tt))

decide_minima_example :
    let out = (decide redis charge (pos 0) (pos 0) (pos 7) table empty).0 in
    IsMinimum redis charge
      (pos 0)
      (pos 0)
      (pos 7)
      (λ b. b.token_limit)
      (λ b. b.computed_tokens -ℤ charge)
      out.tokens
      table
    × IsMinimum redis charge
        (pos 0)
        (pos 0)
        (pos 7)
        (λ b. b.usd_limit)
        (λ b. b.computed_usd -ℤ pos 0)
        out.usd
        table
decide_minima_example =
    decide_minima redis charge (pos 0) (pos 0) (pos 7) fixed-IsOrdered table empty table-Covers

-- A hash of a minute ago.
abbrev hash : Hash ℤ
hash = record {
  tokens_remaining = some (fixed_of_int (pos 400));
  usd_remaining = none;
  last_refill_ts = some (fixed_of_int (pos 40));
  ttl = none;
}

compute_bounds_example :
    let limit = fixed_of_int (pos 1000) in
    let rate = fixed_of_int (pos 10) in
    let b = compute (fixed_of_int (pos 100)) "a" limit limit rate (pos 0) hash in
    IsFilled limit hash.tokens_remaining b.computed_tokens
    × IsFilled limit hash.usd_remaining b.computed_usd
compute_bounds_example =
    compute_bounds fixed-IsOrdered (fixed_of_int (pos 100)) "a" (fixed_of_int (pos 1000))
      (fixed_of_int (pos 1000)) (fixed_of_int (pos 10)) (pos 0) hash refl refl refl tt
