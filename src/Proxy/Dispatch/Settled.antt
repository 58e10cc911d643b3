-- ===== src/Proxy/Dispatch/Settled.antt =====
-- A reservation is settled whatever the provider does.
use mathlib.Core.Path.{subst}
use mathlib.Core.Bool.{false≢true}
use budget_governor.Prelude.{
  true, String, Option, none, some, ◌≡◌, refl, sym, ◌∙◌, arith, All, if-both,
}
use budget_governor.Prelude.Int.{ℤ, pos, ◌+ℤ◌, ◌-ℤ◌, int64}
use budget_governor.Prelude.Float.{Float, nought}
use budget_governor.Budget.Script.{Redis, Store}
use budget_governor.Budget.Enforcer.{answered}
use budget_governor.Budget.Enforcer.Marshal.{IsFreshRef, IsDistinctRefs}
use budget_governor.Budget.Enforcer.Refund.{adjusted, reconcile_effect}
use budget_governor.Provider.Pricing.{cost_usd}
use budget_governor.Provider.Types.{
  Request, Usage, Failure, provider_error, other_error, Completion, completed, failed, Provider,
}
use budget_governor.Proxy.Router.{ProviderRouter, select}
use budget_governor.Proxy.Replies.{chat_response}
use budget_governor.Proxy.Finish.{Course, World, finish, no_usage, record_metrics}
use budget_governor.Proxy.Finish.Once.{IsFinished, requests, requests-append, finish-IsFinished}
use budget_governor.Proxy.Sse.{Transport, SseChunkWriter, new_writer, write_chunk}
use budget_governor.Proxy.Dispatch.{
  Body, chat, error, streamed, Reply, Reservation, upstream_status, fate, settle, error_metrics,
  handle_provider_error, after_complete, do_complete, settle_stream, after_stream, stream_dispatch,
  do_dispatch,
}

module _ {F : Type 0} ⦃d : Float F⦄ (r : Redis F) where
  open d use {sub, of_int}

  -- Each ref is adjusted by what was reserved less what was used, and another key is left alone.
  abbrev pub IsSettled : Reservation F → String → ℤ → F → Store F → Store F → Type 0
  IsSettled v other tokens usd s s' =
      All
        (λ b.
          s' b.key ≡ adjusted r (of_int (int64 (v.tokens -ℤ tokens))) (sub v.usd usd) b (s b.key))
        v.refs
      × (s' other ≡ s other)

  module _ (router : ProviderRouter (Provider F)) (c : Course) (req : Request F) where
    -- The reservation was settled for this usage and cost, and the request finished with them.
    abbrev pub IsBilled :
        Reservation F → String → ℤ → String → String → Usage → F → World F → World F → Type 0
    IsBilled v other status label reason usage usd w w' =
        IsSettled v other (int64 (usage.tokens_in +ℤ usage.tokens_out)) usd w.system.store
          w'.system.store
        × IsFinished router c req status label reason usage usd w w'

    -- A completion is billed with the total and the cost that the client is told, a stream with the
    -- usage of its last chunk and the price of that, and an error with nothing.
    abbrev pub IsDispatchedBody :
        Reservation F → String → String → String → World F → Body F → World F → Type 0
    IsDispatchedBody v other label reason w (chat out) w' =
        (usage : Usage) × (out.usage.total_tokens ≡ int64 (usage.tokens_in +ℤ usage.tokens_out))
        × IsBilled v other (pos 200) label reason usage out.cost_usd w w'
    IsDispatchedBody v other label reason w (error status e) w' =
        IsBilled v other status "rejected" "upstream_error" no_usage nought w w'
    IsDispatchedBody v other label reason w (streamed writer) w' =
        let u = writer.final_usage in
        IsBilled v other (pos 200) label "" u (cost_usd req.model u.tokens_in (pos 0) u.tokens_out)
          w w'

    abbrev pub IsDispatched :
        Reservation F → String → String → String → World F → Reply F × World F → Type 0
    IsDispatched v other label reason w (reply, w') =
        IsDispatchedBody v other label reason w reply.body w'

    module _ (v : Reservation F) (other label reason : String) (w : World F)
        (on_time : fate c ≡ answered) (p : IsDistinctRefs v.refs)
        (q : IsFreshRef other v.refs) where
      settle-IsSettled :
          (tokens : ℤ) (usd : F)
          → IsSettled v other tokens usd w.system.store (settle r c v tokens usd w).system.store
      unfolding settle
      settle-IsSettled tokens usd =
          let (_, settled, kept) =
            reconcile_effect r v.refs v.tokens v.usd tokens usd other w.system p q in
          rw on_time (settled, kept)

      -- Whatever was counted in between.
      finish-IsBilled :
          (tokens status : ℤ) (label' reason' : String) (usage : Usage) (usd : F) (w1 : World F)
          → w1.system ≡ (settle r c v tokens usd w).system
          → w1.logger ≡ w.logger
          → w1.spend_writer ≡ w.spend_writer
          → requests w1.metrics ≡ requests w.metrics
          → tokens ≡ int64 (usage.tokens_in +ℤ usage.tokens_out)
          → IsBilled v other status label' reason' usage usd w
              (finish router c req v.refs nought label' reason' usage usd status w1)
      unfolding finish record_metrics
      finish-IsBilled tokens status label' reason' usage usd w1 same_system same_logger same_writer
            same_count e =
          let f = finish-IsFinished router c req v.refs nought label' reason' usage usd status w1 in
          (
            subst (λ n. IsSettled v other n usd w.system.store w1.system.store) e
                (subst (λ y. IsSettled v other tokens usd w.system.store y.store) (sym same_system)
                  (settle-IsSettled tokens usd)),
            record {
              logged = cc (f.logged, same_logger);
              enqueued = cc (f.enqueued, same_writer);
              counted = omega (arith, f.counted, same_count);
            },
          )

      no_tokens : pos 0 ≡ int64 (pos 0 +ℤ pos 0)
      unfolding ◌+ℤ◌ int64
      no_tokens = refl

      requests-error_metrics : (e : Failure) → requests (error_metrics router req e) ≡ 0
      unfolding requests error_metrics
      requests-error_metrics (provider_error e) = refl
      requests-error_metrics (other_error s) = refl

      handle_provider_error-IsDispatched :
          (e : Failure)
          → let (b, w') = handle_provider_error r router c req v e w in
            IsDispatchedBody v other label reason w b w'
      unfolding handle_provider_error settle record_metrics
      handle_provider_error-IsDispatched e =
          let ms = error_metrics router req e in
          finish-IsBilled (pos 0) (upstream_status e) "rejected" "upstream_error" no_usage nought
            (record_metrics ms (settle r c v (pos 0) nought w)) refl refl refl
            (omega (arith, requests-append w.metrics ms, requests-error_metrics e)) no_tokens

      after_complete-IsDispatched :
          (advice : String) (o : Completion F)
          → IsDispatched v other label reason w
              (after_complete r router c req v label reason advice o w)
      unfolding after_complete chat_response settle
      after_complete-IsDispatched advice (completed resp) =
          let actual = int64 (resp.usage.tokens_in +ℤ resp.usage.tokens_out) in
          (
            resp.usage,
            refl,
            finish-IsBilled actual (pos 200) label reason resp.usage resp.cost_usd
                (settle r c v actual resp.cost_usd w) refl refl refl refl refl,
          )
      after_complete-IsDispatched advice (failed e) = handle_provider_error-IsDispatched e

      -- If Redis answers the refund, which is not sent when the client has gone, and no two refs share
      -- a key, then dispatching a request that is not streamed settles its reservation and finishes it once. If the client gets a completion, each
      -- ref is adjusted by the reservation less the total tokens and the cost that the client is
      -- told, and the log has the given label and status 200. If it gets an error, each ref is
      -- adjusted by the whole reservation, and the log has `rejected` and the status that the client
      -- sees. No other key changes.
      pub do_complete-IsDispatched :
          (advice : String)
          → IsDispatched v other label reason w (do_complete r router c req v label reason advice w)
      unfolding do_complete
      do_complete-IsDispatched advice =
          after_complete-IsDispatched advice ((select router req.model).complete req)

      settle_stream-IsDispatched :
          (writer : SseChunkWriter)
          → let (b, w') = settle_stream r router c req v label writer w in
            IsDispatchedBody v other label reason w b w'
      unfolding settle_stream settle
      settle_stream-IsDispatched writer =
          let u = writer.final_usage in
          let usd = cost_usd req.model u.tokens_in (pos 0) u.tokens_out in
          let actual = int64 (u.tokens_in +ℤ u.tokens_out) in
          finish-IsBilled actual (pos 200) label "" u usd (settle r c v actual usd w) refl refl refl
            refl refl

      after_stream-IsDispatched :
          (o : Option Failure) (writer : SseChunkWriter)
          → let (b, w') = after_stream r router c req v label (o, writer) w in
            IsDispatchedBody v other label reason w b w'
      unfolding after_stream
      after_stream-IsDispatched none writer = settle_stream-IsDispatched writer
      after_stream-IsDispatched (some e) writer =
          if-both (λ (x : Body F × World F). IsDispatchedBody v other label reason w x.0 x.1)
            writer.wrote_headers _ _ (λ _. settle_stream-IsDispatched writer)
            (λ _. handle_provider_error-IsDispatched e)

      -- If Redis answers the refund, no two refs share a key and the transport can be flushed, then
      -- dispatching a streamed request, whatever the provider writes and whichever writes to the client
      -- fail, settles its reservation and finishes it once. The refund is not sent when the client has
      -- gone by then: of that case nothing is said. If the client gets a stream, each ref is adjusted by
      -- the reservation less the usage that the writer last saw and its price for the model. If it
      -- gets an error, each ref is adjusted by the whole reservation, and the log has `rejected` and
      -- the status that the client sees. No other key changes.
      pub stream_dispatch-IsDispatched :
          (t : Transport) (advice : String)
          → t.flushes ≡ true
          → IsDispatched v other label reason w (stream_dispatch r router t c req v label advice w)
      unfolding stream_dispatch
      stream_dispatch-IsDispatched t advice flushes =
          let out =
            (select router req.model).stream (write_chunk t) req
              (new_writer req.trace_id req.model) in
          if-both (IsDispatched v other label reason w) t.flushes _ _
            (λ _. after_stream-IsDispatched out.0 out.1)
            (λ blocked. absurd (false≢true (sym blocked ∙ flushes)))

      pub do_dispatch-IsDispatched :
          (t : Transport) (advice : String)
          → t.flushes ≡ true
          → IsDispatched v other label reason w
              (do_dispatch r router t c req v label reason advice w)
      unfolding do_dispatch
      do_dispatch-IsDispatched t advice flushes =
          if-both (IsDispatched v other label reason w) req.stream _ _
            (λ _. stream_dispatch-IsDispatched t advice flushes)
            (λ _. do_complete-IsDispatched advice)
