-- ===== src/Proxy/Finish/Once.antt =====
-- What one call of `finish` leaves behind.
use budget_governor.Prelude.{
  ℕ, suc, ◌+◌, ◌-◌, ◌≡◌, refl, inl, inr, String, List, [], ◌∷◌, ◌++◌, arith, Bool-cases,
}
use budget_governor.Prelude.Int.{ℤ, pos, ltb_ℤ}
use budget_governor.Prelude.Float.{Float}
use budget_governor.Budget.Types.{BucketRef}
use budget_governor.Observability.Metrics.{
  Metric, requests_total, request_duration, tokens_total, cost_usd_total, rejections_total,
  bucket_saturation, advisor_invocations, provider_errors_total,
}
use budget_governor.Observability.Logger.{log_entry}
use budget_governor.Provider.Types.{Request, Usage, Provider}
use budget_governor.Proxy.Router.{ProviderRouter}
use budget_governor.Proxy.Finish.{
  Course, World, saturations, finish_metrics, record_metrics, log_of, event_of, enqueue_on, finish,
}

module _ {F : Type 0} where
  -- How often a request was counted.
  unfoldable pub requests : List (Metric F) → ℕ
  requests [] = 0
  requests (requests_total tenant model decision ∷ ms) = suc (requests ms)
  requests (_ ∷ ms) = requests ms

  pub requests-append : (ms ns : List (Metric F)) → requests (ms ++ ns) ≡ requests ms + requests ns
  unfolding requests
  requests-append [] ns = omega arith
  requests-append (requests_total a b c ∷ ms) ns = omega (arith, requests-append ms ns)
  requests-append (request_duration a b c n ∷ ms) ns = requests-append ms ns
  requests-append (tokens_total a b c n ∷ ms) ns = requests-append ms ns
  requests-append (cost_usd_total a b c n ∷ ms) ns = requests-append ms ns
  requests-append (rejections_total a b ∷ ms) ns = requests-append ms ns
  requests-append (bucket_saturation a b n ∷ ms) ns = requests-append ms ns
  requests-append (advisor_invocations a b ∷ ms) ns = requests-append ms ns
  requests-append (provider_errors_total a b ∷ ms) ns = requests-append ms ns

module _ {F : Type 0} ⦃d : Float F⦄ where
  open d use {lt}

  requests-saturations :
      (tenant : String) (remaining : F) (refs : List (BucketRef F))
      → requests (saturations tenant remaining refs) ≡ 0
  unfolding requests saturations
  requests-saturations tenant remaining [] = refl
  requests-saturations tenant remaining (b ∷ refs) =
      elim (Bool-cases (ltb_ℤ (pos 0) b.limits.token_limit)) [
        | inl e ↦ rw e (requests-saturations tenant remaining refs)
        | inr e ↦ rw e (requests-saturations tenant remaining refs)
      ]

  requests-finish_metrics :
      (req : Request F) (refs : List (BucketRef F)) (remaining : F) (label reason : String)
      (latency : ℕ) (usage : Usage) (cost : F)
      → requests (finish_metrics req refs remaining label reason latency usage cost) ≡ 1
  unfolding requests finish_metrics
  requests-finish_metrics req refs remaining label reason latency usage cost = ground (
    arith,
    requests-saturations req.tenant_id remaining refs,
    Bool-cases (ltb_ℤ (pos 0) usage.tokens_in),
  )

  -- A request was finished with this status, label, usage and cost: its line went to the log, its
  -- event to the spend writer, and it was counted once.
  pub record IsFinished (router : ProviderRouter (Provider F)) (c : Course) (req : Request F)
      (status : ℤ) (label reason : String) (usage : Usage) (cost : F) (w w' : World F)
      : Type 0 where
    pub logged :
        w'.logger
        ≡ log_entry
            (log_of router req label reason (c.finish - c.start) usage cost status)
            c.log
            w.logger
    pub enqueued :
        w'.spend_writer ≡ enqueue_on w.spend_writer (event_of req label reason usage cost) c.enqueue
    pub counted : requests w'.metrics ≡ suc (requests w.metrics)

  pub finish-IsFinished :
      (router : ProviderRouter (Provider F)) (c : Course) (req : Request F)
      (refs : List (BucketRef F)) (remaining : F) (label reason : String) (usage : Usage) (cost : F)
      (status : ℤ) (w : World F)
      → IsFinished router c req status label reason usage cost w
          (finish router c req refs remaining label reason usage cost status w)
  unfolding finish record_metrics
  finish-IsFinished router c req refs remaining label reason usage cost status w =
      let latency = c.finish - c.start in
      let ms = finish_metrics req refs remaining label reason latency usage cost in
      record {
        logged = refl;
        enqueued = refl;
        counted = omega (
          arith,
          requests-append w.metrics ms,
          requests-finish_metrics req refs remaining label reason latency usage cost,
        );
      }
