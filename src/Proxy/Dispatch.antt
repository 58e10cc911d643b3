-- ===== src/Proxy/Dispatch.antt =====
-- gateway/internal/proxy/handler.go from `dispatch` on, with `streamDispatch` of stream.go.
pub mod Settled
use budget_governor.Prelude.{
  String, Bool, true, false, Option, none, some, List, [], ◌∷◌, if◌then◌else◌,
}
use budget_governor.Prelude.Int.{ℤ, pos, ◌+ℤ◌, int64, eqb_ℤ, leb_ℤ}
use budget_governor.Prelude.Float.{Float, nought}
use budget_governor.Budget.Types.{BucketRef}
use budget_governor.Budget.Script.{Redis}
use budget_governor.Budget.Enforcer.{Delivery, lost_request, reconcile}
use budget_governor.Observability.Metrics.{Metric, provider_errors_total}
use budget_governor.Provider.Types.{
  Request, Usage, Failure, provider_error, other_error, error_text, Completion, completed, failed,
  Provider,
}
use budget_governor.Provider.Pricing.{cost_usd}
use budget_governor.Proxy.Router.{ProviderRouter, select}
use budget_governor.Proxy.Replies.{ClientChatResponse, ErrorResponse, chat_response, with_message}
use budget_governor.Proxy.Finish.{
  Course, World, finish, no_usage, provider_name_for, record_metrics,
}
use budget_governor.Proxy.Sse.{Transport, SseChunkWriter, new_writer, write_chunk}

unfoldable pub map_provider_status : ℤ → ℤ
map_provider_status status =
    if eqb_ℤ status (pos 0)
    then pos 502
    else (if eqb_ℤ status (pos 429)
        then pos 429
        else (if leb_ℤ (pos 500) status then pos 502 else status))

unfoldable pub status_class : ℤ → String
status_class status = if leb_ℤ (pos 500) status then "5xx" else "4xx"

-- What the client gets: a completion with status 200, an error with its status, or what was written
-- to it as a stream.
pub data Body (F : Type 0) : Type 0 where
  chat : ClientChatResponse F → Body F
  error : ℤ → ErrorResponse F → Body F
  streamed : SseChunkWriter → Body F

-- `advisory` is the header X-Budget-Advisory, empty if it is not set.
pub record Reply (F : Type 0) : Type 0 where
  pub advisory : String
  pub body : Body F

module _ {F : Type 0} where
  abbrev pub with_advisory : String → Body F × World F → Reply F × World F
  with_advisory advice (b, w) = (record { advisory = advice; body = b }, w)

-- The status and the message for an error of a provider.
unfoldable pub upstream_status : Failure → ℤ
upstream_status (provider_error e) = map_provider_status e.status_code
upstream_status (other_error s) = pos 502

unfoldable pub upstream_message : Failure → String
upstream_message (provider_error e) = e.message
upstream_message (other_error s) = error_text (other_error s)

-- What was reserved for a request: for these refs, so many tokens and dollars.
pub record Reservation (F : Type 0) : Type 0 where
  pub refs : List (BucketRef F)
  pub tokens : ℤ
  pub usd : F

-- The refund is sent in the context of the request: not at all, if that is cancelled.
abbrev pub fate : Course → Delivery
fate c = if c.gone then lost_request else c.settle

-- `Reconcile`; an error of it is only logged.
unfoldable pub settle :
    {F : Type 0} ⦃d : Float F⦄ → Redis F → Course → Reservation F → ℤ → F → World F → World F
settle r c v tokens usd w = record w {
  system = (reconcile r (fate c) v.refs v.tokens v.usd tokens usd w.system).1;
}

-- Only a `ProviderError` is counted.
unfoldable pub error_metrics :
    {F : Type 0} → ProviderRouter (Provider F) → Request F → Failure → List (Metric F)
error_metrics router req (provider_error e) =
    let class = status_class (map_provider_status e.status_code) in
    provider_errors_total (provider_name_for router req.model) class ∷ []
error_metrics router req (other_error s) = []

module _ {F : Type 0} ⦃d : Float F⦄ (r : Redis F) (router : ProviderRouter (Provider F)) where
  unfoldable pub handle_provider_error :
      Course → Request F → Reservation F → Failure → World F → Body F × World F
  handle_provider_error c req v e w = (
    error (upstream_status e) (with_message (upstream_message e) "upstream_error"),
    finish router c req v.refs nought "rejected" "upstream_error" no_usage nought
        (upstream_status e)
        (record_metrics (error_metrics router req e) (settle r c v (pos 0) nought w)),
  )

  -- What follows the call of `Complete`.
  unfoldable pub after_complete :
      Course
      → Request F
      → Reservation F
      → String
      → String
      → String
      → Completion F
      → World F
      → Reply F × World F
  after_complete c req v label reason advice (completed resp) w =
      let actual = int64 (resp.usage.tokens_in +ℤ resp.usage.tokens_out) in
      with_advisory advice (
        chat (chat_response resp advice),
        finish router c req v.refs nought label reason resp.usage resp.cost_usd (pos 200)
            (settle r c v actual resp.cost_usd w),
      )
  after_complete c req v label reason advice (failed e) w =
      with_advisory "" (handle_provider_error c req v e w)

  -- `doDispatch` behind its test for a stream.
  unfoldable pub do_complete :
      Course → Request F → Reservation F → String → String → String → World F → Reply F × World F
  do_complete c req v label reason advice w =
      after_complete c req v label reason advice ((select router req.model).complete req) w

  -- The end of `streamDispatch`.
  unfoldable pub settle_stream :
      Course → Request F → Reservation F → String → SseChunkWriter → World F → Body F × World F
  settle_stream c req v label writer w =
      let u = writer.final_usage in
      let usd = cost_usd req.model u.tokens_in (pos 0) u.tokens_out in
      (
        streamed writer,
        finish router c req v.refs nought label "" u usd (pos 200)
            (settle r c v (int64 (u.tokens_in +ℤ u.tokens_out)) usd w),
      )

  -- What follows the call of `Stream`: an error is answered as long as no header was written.
  unfoldable pub after_stream :
      Course
      → Request F
      → Reservation F
      → String
      → Option Failure × SseChunkWriter
      → World F
      → Body F × World F
  after_stream c req v label (none, writer) w = settle_stream c req v label writer w
  after_stream c req v label (some e, writer) w =
      if writer.wrote_headers
      then settle_stream c req v label writer w
      else handle_provider_error c req v e w

  module _ (t : Transport) where
    unfoldable pub stream_dispatch :
        Course → Request F → Reservation F → String → String → World F → Reply F × World F
    stream_dispatch c req v label advice w =
        let out =
          (select router req.model).stream (write_chunk t) req
            (new_writer req.trace_id req.model) in
        if t.flushes
        then with_advisory advice (after_stream c req v label out w)
        else with_advisory "" (
          error (pos 500)
              (with_message "streaming not supported by this transport" "internal_error"),
          w,
        )

    unfoldable pub do_dispatch :
        Course → Request F → Reservation F → String → String → String → World F → Reply F × World F
    do_dispatch c req v label reason advice w =
        if req.stream
        then stream_dispatch c req v label advice w
        else do_complete c req v label reason advice w

    unfoldable pub dispatch :
        Course → Request F → Reservation F → String → String → World F → Reply F × World F
    dispatch c req v label reason w = do_dispatch c req v label reason "" w

    unfoldable pub dispatch_advised :
        Course → Request F → Reservation F → String → World F → Reply F × World F
    dispatch_advised c req v advice w = do_dispatch c req v "advised_retry" "" advice w
