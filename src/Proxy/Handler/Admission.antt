-- ===== src/Proxy/Handler/Admission.antt =====
-- No call of a provider without budgets that cover it, and no charge without a call.
use mathlib.Core.Bool.{false≢true}
use budget_governor.Prelude.{
  suc, true, false, some, String, List, [], ◌∷◌, ◌⊎◌, inl, inr, ◌≡◌, refl, sym, ap, ◌∙◌,
}
use budget_governor.Prelude.Int.{ℤ, pos, ◌+ℤ◌, int64}
use budget_governor.Prelude.Float.{Float, nought}
use budget_governor.Budget.Types.{BucketRef, Decision}
use budget_governor.Budget.Script.{Store, now_of}
use budget_governor.Budget.Enforcer.{
  answered, is_once, Weather, System, decided, decode, convert, keys_of, arguments,
  check_and_decrement,
}
use budget_governor.Budget.Enforcer.Marshal.{IsFreshRef, IsDistinctRefs, reference, run-arguments}
use budget_governor.Budget.Enforcer.Eval.{eval_recovers}
use budget_governor.Budget.Enforcer.Explained.{
  IsAdmitted, IsExplained, check_and_decrement-IsExplained,
}
use budget_governor.Provider.Pricing.{PricePerMillion, price_of, pricing_table, cost_usd}
use budget_governor.Provider.Pricing.Cheaper.{IsBargain}
use budget_governor.Provider.Types.{Request}
use budget_governor.Provider.Tokenizer.{estimate_messages_tokens}
use budget_governor.Proxy.Finish.{Course, World, finish, no_usage, record_metrics}
use budget_governor.Proxy.Finish.Once.{requests, finish-IsFinished}
use budget_governor.Proxy.Replies.{ErrorResponse}
use budget_governor.Proxy.Dispatch.{Body, chat, error, streamed, Reply, Reservation}
use budget_governor.Proxy.Dispatch.Settled.{IsDispatched, IsDispatchedBody}
use budget_governor.Proxy.Handler.{Outside, estimated, output_estimate}

module _ {F : Type 0} ⦃d : Float F⦄ (o : Outside F) (refs : List (BucketRef F)) where
  -- The tokens of the prompt and `out` more for the completion, at the price of the model for them.
  abbrev pub reserved : Request F → ℤ → Reservation F
  reserved req out =
      let tokens_in = estimated (estimate_messages_tokens o.unicode req.system req.messages) in
      record {
        refs = refs;
        tokens = int64 (tokens_in +ℤ out);
        usd = cost_usd req.model tokens_in (pos 0) out;
      }

module _ {F : Type 0} ⦃d : Float F⦄ (o : Outside F) (c : Course) (refs : List (BucketRef F))
    (other : String) (asked : Request F) where
  open o use {redis, router}

  -- An error, and no budget was changed.
  abbrev pub IsRefusal : World F → Reply F × World F → Type 0
  IsRefusal w (reply, w') =
      (status : ℤ) × (e : ErrorResponse F) × (reply.body ≡ error status e)
      × (w'.system.store ≡ w.system.store)

  -- The prices show this model to be of the same family as the one asked for, and cheaper.
  abbrev pub IsCheaperModel : String → Type 0
  IsCheaperModel name =
      (base : PricePerMillion F) × (price_of asked.model ≡ some base)
      × IsBargain asked.model base name pricing_table

  -- The same prompt for the same tenant, with the same model or a cheaper one.
  abbrev pub IsVariant : Request F → Type 0
  IsVariant req =
      (req.system ≡ asked.system)
      × (req.messages ≡ asked.messages)
      × (req.tenant_id ≡ asked.tenant_id)
      × ((req.model ≡ asked.model) ⊎ IsCheaperModel req.model)

  -- Every budget had enough for the prompt and the longest completion of `req` and was charged with
  -- them, which gives `w2`; from there on `req` was dispatched.
  abbrev pub IsServed : World F → Reply F × World F → Type 0
  IsServed w result =
      (req : Request F) × IsVariant req
      × (out : ℤ) × ((out ≡ output_estimate req) ⊎ (out ≡ req.max_tokens))
      × ((label : String) × (weather : Weather) × (dec : Decision F) × (y : System F) × (w2 : World
            F)
          × (y.store ≡ w.system.store)
          × IsAdmitted redis (reserved o refs req out).tokens (reserved o refs req out).usd
              (λ s. s other ≡ y.store other) (now_of weather.sec weather.usec) y.state_ttl refs
              y.store dec w2.system.store
          × IsDispatched redis router c req (reserved o refs req out) other label "" w2 result)

  -- What every request comes to.
  abbrev pub IsHandled : World F → Reply F × World F → Type 0
  IsHandled w out =
      (IsRefusal w out ⊎ IsServed w out) × (requests out.1.metrics ≡ suc (requests w.metrics))

  -- A check whose commands are answered gives a decision.
  check-decided :
      (weather : Weather) (b : BucketRef F) (bs : List (BucketRef F)) (tokens : ℤ) (usd : F)
      (y : System F)
      → weather.evalsha ≡ answered
      → weather.eval ≡ answered
      → (dec : Decision F) × ((check_and_decrement redis weather (b ∷ bs) tokens usd y).0
          ≡ decided dec)
  unfolding check_and_decrement decode convert
  check-decided weather b bs tokens usd y e1 e2 =
      let all = b ∷ bs in
      let (out, s') = reference redis weather.sec weather.usec all tokens usd y.state_ttl y.store in
      let (replied, _, _) =
        eval_recovers redis weather (keys_of all) (arguments tokens usd y.state_ttl all) y out s' e1
          e2 (run-arguments redis weather.sec weather.usec all tokens usd y.state_ttl y.store) in
      rw (replied, check_and_decrement) (_, refl)

  -- A refused check changes nothing.
  explained-kept :
      (tokens : ℤ) (usd now : F) (ttl : ℤ) (s s' : Store F) (dec : Decision F)
      → IsExplained redis tokens usd (λ x. x other ≡ s other) now ttl refs s dec s'
      → dec.allowed ≡ false
      → s' ≡ s
  explained-kept tokens usd now ttl s s' dec (inl x) no_leave =
      absurd (false≢true (sym no_leave ∙ x.0))
  explained-kept tokens usd now ttl s s' dec (inr (inl (_, _, _, _, _, _, same))) no_leave = same
  explained-kept tokens usd now ttl s s' dec (inr (inr (_, _, _, _, same))) no_leave = same

  explained-IsAdmitted :
      (tokens : ℤ) (usd now : F) (ttl : ℤ) (s s' : Store F) (dec : Decision F)
      → IsExplained redis tokens usd (λ x. x other ≡ s other) now ttl refs s dec s'
      → dec.allowed ≡ true
      → IsAdmitted redis tokens usd (λ x. x other ≡ s other) now ttl refs s dec s'
  explained-IsAdmitted tokens usd now ttl s s' dec (inl x) leave = x
  explained-IsAdmitted tokens usd now ttl s s' dec (inr (inl (_, _, _, e, _, _, _))) leave =
      absurd (false≢true (sym e ∙ leave))
  explained-IsAdmitted tokens usd now ttl s s' dec (inr (inr (_, e, _, _, _))) leave =
      absurd (false≢true (sym e ∙ leave))

  body-counted :
      (req : Request F) (v : Reservation F) (label : String) (w w' : World F) (b : Body F)
      → IsDispatchedBody redis router c req v other label "" w b w'
      → requests w'.metrics ≡ suc (requests w.metrics)
  body-counted req v label w w' (chat out) (_, _, (_, f)) = f.counted
  body-counted req v label w w' (error status e) (_, f) = f.counted
  body-counted req v label w w' (streamed writer) (_, f) = f.counted

  pub dispatched-counted :
      (req : Request F) (v : Reservation F) (label : String) (w : World F)
      (result : Reply F × World F)
      → IsDispatched redis router c req v other label "" w result
      → requests result.1.metrics ≡ suc (requests w.metrics)
  dispatched-counted req v label w (reply, w') = body-counted req v label w w' reply.body

  module _ (w w1 : World F) (same : w1.system.store ≡ w.system.store)
      (uncounted : requests w1.metrics ≡ requests w.metrics) where
    pub finish-IsRefusal :
        (req : Request F) (remaining : F) (reason advisory : String) (status : ℤ)
        (e : ErrorResponse F)
        → IsHandled w (
          record { advisory = advisory; body = error status e },
          finish router c req [] remaining "rejected" reason no_usage nought status w1,
        )
    unfolding finish record_metrics
    finish-IsRefusal req remaining reason advisory status e =
        let f =
          finish-IsFinished router c req [] remaining "rejected" reason no_usage nought status w1 in
        (inl (status, e, refl, same), f.counted ∙ ap suc uncounted)

module _ {F : Type 0} ⦃d : Float F⦄ (o : Outside F) (c : Course) (b : BucketRef F)
    (bs : List (BucketRef F)) (other : String) (asked : Request F)
    (distinct : IsDistinctRefs (b ∷ bs)) (fresh : IsFreshRef other (b ∷ bs)) where
  open o use {redis, router, transport}

  abbrev pub refs : List (BucketRef F)
  refs = b ∷ bs

  -- What a check says, and what it did.
  pub check_step :
      (weather : Weather) (tokens : ℤ) (usd : F) (y : System F)
      → weather.evalsha ≡ answered
      → weather.eval ≡ answered
      → let (out, y') = check_and_decrement redis weather refs tokens usd y in
        (dec : Decision F) × (out ≡ decided dec)
        × (dec.allowed ≡ false → y'.store ≡ y.store)
        × (dec.allowed ≡ true
            → IsAdmitted redis tokens usd
                (λ s. s other ≡ y.store other)
                (now_of weather.sec weather.usec)
                y.state_ttl
                refs
                y.store
                dec
                y'.store)
  check_step weather tokens usd y e1 e2 =
      let (dec, e) = check-decided o c refs other asked weather b bs tokens usd y e1 e2 in
      let x =
        check_and_decrement-IsExplained redis tokens usd weather refs other y dec distinct fresh
          (ap is_once e1) (ap is_once e2) e in
      (
        dec,
        e,
        explained-kept o c refs other asked tokens usd _ _ _ _ dec x,
        explained-IsAdmitted o c refs other asked tokens usd _ _ _ _ dec x,
      )
