-- ===== src/Proxy/Handler/Handled.antt =====
-- Every request is refused without a charge, or served within its budgets.
use budget_governor.Prelude.{true, String, List, ◌∷◌, ◌≡◌}
use budget_governor.Prelude.Float.{Float}
use budget_governor.Budget.Types.{BucketRef}
use budget_governor.Budget.Enforcer.{answered}
use budget_governor.Budget.Enforcer.Marshal.{IsFreshRef, IsDistinctRefs}
use budget_governor.Policy.Engine.{reject as rejected}
use budget_governor.Provider.Types.{Request}
use budget_governor.Proxy.Finish.{Course}
use budget_governor.Proxy.Dispatch.{fate}
use budget_governor.Proxy.Handler.{Outside, reject}

-- Redis answers all commands of a request, which the client does not break off, and the connection can
-- be flushed.
pub record IsReached {F : Type 0} (o : Outside F) (c : Course) : Type 0 where
  pub check_sha : c.check.evalsha ≡ answered
  pub check_eval : c.check.eval ≡ answered
  pub retry_sha : c.retry.evalsha ≡ answered
  pub retry_eval : c.retry.eval ≡ answered
  pub settles : fate c ≡ answered
  pub flushes : o.transport.flushes ≡ true

module _ {F : Type 0} ⦃d : Float F⦄ (o : Outside F) (c : Course) (b : BucketRef F)
    (bs : List (BucketRef F)) (other : String) (asked : Request F) (reached : IsReached o c)
    (distinct : IsDistinctRefs (b ∷ bs)) (fresh : IsFreshRef other (b ∷ bs)) where
  open o use {redis, router, transport, unicode, policy_config, advisor, history}

  abbrev refs : List (BucketRef F)
  refs = b ∷ bs
