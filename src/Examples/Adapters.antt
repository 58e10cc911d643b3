-- ===== src/Examples/Adapters.antt =====
-- Calls of the three providers, for gateway/internal/provider.
use budget_governor.Prelude.{
  refl, ◌≡◌, inr, false, none, some, List, [], ◌∷◌, map, String, arith, Option,
}
use budget_governor.Prelude.Int.{ℤ, pos, ◌≤ℤ◌, ◌<ℤ◌, IsInt64}
use budget_governor.Prelude.Float.{fixed}
use budget_governor.Provider.Http.{Exchange, answered}
use budget_governor.Provider.Types.{Request}
use budget_governor.Provider.OpenAi.{to_openai_request, openai_completion}
use budget_governor.Provider.OpenAi.Completed.{
  IsOpenAiCompletion, openai_completion-IsOpenAiCompletion,
}
use budget_governor.Provider.OpenAi.Sent.{openai_messages-to_provider_request}
use budget_governor.Provider.Anthropic.{
  AnthropicEvent, content_block_delta, message_stop, nothing_yet, stream_events,
  to_anthropic_request, anthropic_completion,
}
use budget_governor.Provider.Anthropic.Completed.{
  IsAnthropicCompletion, anthropic_completion-IsAnthropicCompletion,
}
use budget_governor.Provider.Anthropic.Streamed.{
  told, IsOrdered, recorder, others_of, stream_events-IsOrdered,
  to_anthropic_request-to_provider_request,
}
use budget_governor.Provider.Mock.{Simulation}
use budget_governor.Provider.Tokenizer.{Unicode}
use budget_governor.Proxy.Requests.{
  ClientMessage, ClientChatRequest, normalized, to_provider_request,
}
use budget_governor.Config.{Config, load, checked, settings, get_env_int, scale, millisecond}
use budget_governor.Examples.Dispatches.{request}

abbrev messages : List ClientMessage
messages =
    record { role = "system"; content = "Be brief." }
    ∷ record { role = "user"; content = "Hi" }
    ∷ []

abbrev client_request : ClientChatRequest ℤ
client_request = record {
  model = "gpt-4o";
  messages = messages;
  max_tokens = pos 100;
  temperature = pos 0;
  stream = false;
}

openai_messages-to_provider_request_example :
    (to_openai_request (to_provider_request client_request)).messages ≡ map normalized messages
openai_messages-to_provider_request_example =
    openai_messages-to_provider_request client_request
      (record { role = "system"; content = "Be brief." })
      (record { role = "user"; content = "Hi" } ∷ []) refl (refl, (refl, tt)) (refl, tt)

to_anthropic_request-to_provider_request_example :
    ((to_anthropic_request (to_provider_request client_request)).messages
      ≡ map normalized (others_of messages))
    × (pos 1 ≤ℤ (to_anthropic_request (to_provider_request client_request)).max_tokens)
to_anthropic_request-to_provider_request_example =
    to_anthropic_request-to_provider_request client_request (refl, (refl, tt))

abbrev refusal : {B : Type 0} → String → Exchange B
refusal e = answered (record {
  status = pos 429;
  retry_after = some (pos 3);
  envelope = record { kind = ""; message = "slow down" };
  body = inr e;
  lines = [];
  scan_error = none;
})

openai_completion-IsOpenAiCompletion_example :
    IsOpenAiCompletion (request false) (refusal "") (openai_completion (request false) (refusal ""))
openai_completion-IsOpenAiCompletion_example =
    openai_completion-IsOpenAiCompletion (request false) (refusal "")

anthropic_completion-IsAnthropicCompletion_example :
    IsAnthropicCompletion
      (request false)
      (refusal "")
      (anthropic_completion (request false) (refusal ""))
anthropic_completion-IsAnthropicCompletion_example =
    anthropic_completion-IsAnthropicCompletion (request false) (refusal "")

abbrev events : List (Option AnthropicEvent)
events = some (content_block_delta "text_delta" "Hi") ∷ none ∷ some message_stop ∷ []

stream_events-IsOrdered_example :
    IsOrdered (told events nothing_yet) [] (stream_events recorder none events nothing_yet [])
stream_events-IsOrdered_example = stream_events-IsOrdered none events nothing_yet []

abbrev unicode : Unicode
unicode = record { is_space = λ r. false; is_letter = λ r. false; is_digit = λ r. false }

abbrev simulation : Simulation ℤ
simulation = record {
  text = λ model tokens_in tokens_out. "simulated";
  words = λ model tokens_in tokens_out. "[mock]" ∷ "simulated" ∷ [];
  mock_id = "mock-1";
  sqrt = λ x. x;
  unicode = unicode;
  cancelled = λ n. none;
}

abbrev limited : Request ℤ
limited = record (request false) { max_tokens = pos 100 }

draw_bound : (n : ℤ) → pos 0 <ℤ n → (pos 0 ≤ℤ pos 0) × (pos 0 <ℤ n)
draw_bound n h = (omega arith, h)

abbrev unset : String → String
unset key = ""

abbrev no_number : String → Option ℤ
no_number s = none

abbrev defaults : Config
defaults = settings unset no_number

read_by : load unset no_number ≡ some defaults
unfolding load checked settings get_env_int
read_by = refl

low_fits : IsInt64 (scale millisecond defaults.mock_provider_latency_min_ms)
unfolding settings get_env_int scale
low_fits = record { below = omega arith; above = omega arith }

high_fits : IsInt64 (scale millisecond defaults.mock_provider_latency_max_ms)
unfolding settings get_env_int scale
high_fits = record { below = omega arith; above = omega arith }
