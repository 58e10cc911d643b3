-- ===== src/Examples/Rates.antt =====
-- Two charges of one token bucket of gateway/internal/budget, by the clock of the server.
use budget_governor.Prelude.{ℕ, suc, ◌≡◌, refl, String, arith, ◌+◌, ◌*◌, ◌≤◌, ◌^◌, false}
use budget_governor.Prelude.Int.{ℤ, pos, negsuc, pos_part, ltb_ℤ, ◌≤ℤ◌, ◌+ℤ◌, ◌-ℤ◌, int_laws}
use budget_governor.Prelude.Float.{fixed, fixed_mul, fixed_of_int}
use budget_governor.Budget.Types.{Limits}
use budget_governor.Budget.Script.{Store, Reply, now_of}
use budget_governor.Budget.Enforcer.Marshal.{reference}
use budget_governor.Budget.Rate.{IsClose, Account}
use budget_governor.Examples.Budgets.{redis, refs, empty}

mul-le :
    (x y : ℤ)
    → ltb_ℤ x (pos 0) ≡ false
    → ltb_ℤ y (pos 0) ≡ false
    → 10 ^ 9 * pos_part (fixed_mul x y) ≤ pos_part y * pos_part x + 10 ^ 9 * 0
mul-le (pos a) (pos b) h k = grind arith
mul-le (pos a) (negsuc b) h k = ground arith
mul-le (negsuc a) y h k = ground arith

exact : (x : ℤ) → x ≤ℤ x +ℤ pos 0
exact x = grind int_laws

-- Fixed point only rounds down.
abbrev close : IsClose redis
close = record {
  units = λ x. x;
  one = 10 ^ 9;
  slack = 0;
  units_nought = refl;
  lt_units = λ x y. refl;
  add-le = λ x y. exact (x +ℤ y);
  sub-le = λ x y. exact (x -ℤ y);
  mul-le = mul-le;
  tostring-le = exact;
  le-tostring = exact;
  incr-le = λ x y. exact (x +ℤ y);
}

abbrev key : String
key = "budget:acme:writer:42"

abbrev limits : Limits ℤ
limits = record {
  token_limit = pos 1000;
  dollar_limit = fixed_of_int (pos 2);
  refill_tokens_per_sec = fixed_of_int (pos 10);
  refill_usd_per_sec = pos 0;
}

abbrev first_world : Account ℤ
first_world = record { store = empty; clock = now_of 100 500_000; spent = pos 0; writes = 0 }

-- A request for tokens at a time of day, on the buckets of a task and its agent.
abbrev asked : ℕ → ℕ → Account ℤ → Reply ℤ × Store ℤ
asked sec tokens a = reference redis sec 0 refs (pos tokens) (pos 0) (pos 3600) a.store

abbrev charged_at : ℕ → ℕ → Account ℤ → Account ℤ
charged_at sec tokens a = record {
  store = (asked sec tokens a).1;
  clock = now_of sec 0;
  spent = a.spent +ℤ fixed_of_int (pos tokens);
  writes = suc a.writes;
}

abbrev second_world : Account ℤ
second_world = charged_at 101 900 first_world

abbrev third_world : Account ℤ
third_world = charged_at 131 350 second_world
