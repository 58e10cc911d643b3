-- ===== src/Budget/Rate/Limit.antt =====
-- What any interleaving of commands may take from one token bucket of gateway/internal/budget.
use budget_governor.Prelude.{refl, String, arith}
use budget_governor.Prelude.Int.{int_laws}
use budget_governor.Prelude.Float.{Float, IsOrdered}
use budget_governor.Budget.Types.{Limits}
use budget_governor.Budget.Script.{Redis}
use budget_governor.Budget.Script.Solvency.{IsPrinting}
use budget_governor.Budget.Rate.{IsClose, Account, IsUnused}
use budget_governor.Budget.Rate.Steps.{IsInOrder}

module _ {F : Type 0} ⦃d : Float F⦄ {r : Redis F} (close : IsClose r) (laws : IsOrdered F)
    (printing : IsPrinting r) (key : String) (limits : Limits F) where
  open d use {lt, of_int}
  open close use {units, one, slack}

  -- Such a bucket has paid for nothing, and owes nothing.
  pub unused-IsInOrder :
      (a : Account F) → IsUnused r close key a → IsInOrder close laws a.clock key limits a
  unused-IsInOrder a unused = record {
    credit = 0;
    span = 0;
    begun = omega arith;
    within = rw (unused.no_tokens, unused.no_charge) (grind int_laws);
    paid = omega arith;
    stamped = rw unused.no_stamp refl;
  }
