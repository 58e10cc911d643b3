-- ===== src/Examples/Gateway.antt =====
-- A text to estimate, a model to route and three events to store, for gateway/internal/provider and
-- gateway/internal/proxy.
use budget_governor.Prelude.{
  ℕ, ◌≡◌, refl, true, false, ◌||◌, ◌&&◌, none, some, String, List, [], ◌∷◌, arith, length, leb,
  ◌==◌,
}
use budget_governor.Prelude.Int.{ℤ, pos}
use budget_governor.Provider.Pricing.{normalize_model, behind_slash}
use budget_governor.Provider.Types.{Message}
use budget_governor.Provider.Tokenizer.{
  Unicode, runes, run_length, after_run, step as scan_step, scan, estimate_tokens,
}
use budget_governor.Provider.Tokenizer.Bounds.{
  IsUnicode, visible, IsEstimate, estimate_tokens-IsEstimate,
}
use budget_governor.Proxy.Requests.{ClientChatRequest, split_system, to_provider_request}
use budget_governor.Proxy.Router.{ProviderRouter, select}
use budget_governor.Proxy.SpendWriter.{
  SpendEvent, Step, enqueue, receive, leave, new_spend_writer, run, step, enqueue_event,
  receive_from, flush, flush_batch,
}
use budget_governor.Proxy.SpendWriter.Flow.{IsClosed, leave_submits}

-- The classes of ASCII.
abbrev ascii : Unicode
ascii = record {
  is_space = λ r. r == 32 || (leb 9 r && leb r 13);
  is_letter = λ r. (leb 65 r && leb r 90) || (leb 97 r && leb r 122);
  is_digit = λ r. leb 48 r && leb r 57;
}

ascii-IsUnicode : IsUnicode ascii
ascii-IsUnicode = record {
  letter-not-space = λ r h. ground arith;
  digit-not-space = λ r h. ground arith;
}

estimate_test : estimate_tokens ascii "Translate this, please..." ≡ some 7
unfolding estimate_tokens scan scan_step run_length after_run runes
estimate_test = refl

abbrev messages : List Message
messages = record { role = "user"; content = "Translate this, please..." } ∷ []

estimate_tokens-IsEstimate_example :
    IsEstimate
      (estimate_tokens ascii "Translate this, please...")
      (visible ascii (runes "Translate this, please..."))
estimate_tokens-IsEstimate_example =
    estimate_tokens-IsEstimate ascii ascii-IsUnicode "Translate this, please..."

abbrev router : ProviderRouter ℕ
router = record { openai = 1; anthropic = 2; mock = 3 }

select_test : select router "anthropic/claude-opus-5" ≡ 2
unfolding select normalize_model behind_slash
select_test = refl

abbrev event : String → SpendEvent ℤ
event trace = record {
  tenant_id = "acme";
  agent_id = "writer";
  task_id = "";
  model = "mock-small";
  tokens_in = pos 12;
  tokens_out = pos 30;
  cost_usd = pos 19_800;
  trace_id = trace;
  decision = "allowed";
  decision_reason = "";
  created_at = none;
}

-- Room for two events in the channel and for two in a batch.
abbrev steps : List (Step ℤ)
steps =
    enqueue (event "a") 7
    ∷ enqueue (event "b") 8
    ∷ enqueue (event "c") 9
    ∷ receive true
    ∷ enqueue (event "d") 10
    ∷ []

run_test :
    let w = run steps (new_spend_writer 2 2) in
    (w.dropped ≡ 1) × (length w.batch ≡ 1) × (length w.queue ≡ 2)
unfolding run step new_spend_writer enqueue_event receive_from flush flush_batch
run_test = (refl, refl, refl)

still_running : (run steps (new_spend_writer 2 2)).stopped ≡ false
unfolding run step new_spend_writer enqueue_event receive_from flush flush_batch
still_running = refl

leave_submits_example :
    let w = run steps (new_spend_writer 2 2) in IsClosed w (step (leave false) w)
leave_submits_example = leave_submits 2 2 steps false (omega arith) still_running

abbrev body : ClientChatRequest ℤ
body = record {
  model = "mock-small";
  messages =
      record { role = "user"; content = "Hello" }
      ∷ record { role = "system"; content = "Be brief." }
      ∷ record { role = "system"; content = "Be kind." }
      ∷ [];
  max_tokens = pos 0;
  temperature = pos 0;
  stream = false;
}

body_test : (to_provider_request body).system ≡ "Be brief."
unfolding to_provider_request split_system
body_test = refl
