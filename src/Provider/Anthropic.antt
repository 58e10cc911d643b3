-- ===== src/Provider/Anthropic.antt =====
-- gateway/internal/provider/anthropic.go. HTTP and JSON are parameters.
pub mod Completed
pub mod Streamed
use Prim.Native.String.{len, slice}
use Prim.Native.String
use text.Mathlib.Text.{starts_with}
use budget_governor.Prelude.{
  String, Bool, true, false, inl, inr, Option, none, some, List, [], ◌∷◌, str_eq, if◌then◌else◌,
}
use budget_governor.Prelude.Int.{ℤ, pos, ◌+ℤ◌, int64, leb_ℤ}
use budget_governor.Prelude.Float.{Float}
use budget_governor.Provider.Http.{
  Answer, Envelope, Exchange, unsent, answered, or_text, or_zero, scanner_failure, unless_failed,
}
use budget_governor.Provider.Pricing.{cost_usd}
use budget_governor.Provider.Types.{
  Message, Request, Usage, StreamChunk, Failure, provider_error, other_error, Completion, completed,
  failed, Writer, Provider,
}

pub record AnthropicRequest : Type 0 where
  pub model : String
  pub max_tokens : ℤ
  pub system : String
  pub messages : List Message
  pub stream : Bool

pub record AnthropicUsage : Type 0 where
  pub input_tokens : ℤ
  pub output_tokens : ℤ
  pub cache_creation_input_tokens : ℤ
  pub cache_read_input_tokens : ℤ

pub record AnthropicContentBlock : Type 0 where
  pub kind : String
  pub text : String

pub record AnthropicResponse : Type 0 where
  pub id : String
  pub model : String
  pub content : List AnthropicContentBlock
  pub stop_reason : String
  pub usage : AnthropicUsage

-- The events that `Stream` looks at, with what it reads of them.
pub data AnthropicEvent : Type 0 where
  message_start : AnthropicUsage → AnthropicEvent
  content_block_delta : String → String → AnthropicEvent
  message_delta : AnthropicUsage → String → AnthropicEvent
  message_stop other_event : AnthropicEvent
  error_event : Envelope → AnthropicEvent

abbrev pub default_max_tokens : ℤ
default_max_tokens = pos 1024

-- The loop of `toAnthropicRequest`.
unfoldable pub anthropic_messages : List Message → List Message
anthropic_messages [] = []
anthropic_messages (m ∷ messages) =
    let rest = anthropic_messages messages in if str_eq m.role "system" then rest else m ∷ rest

unfoldable pub to_anthropic_request : {F : Type 0} → Request F → AnthropicRequest
to_anthropic_request req = record {
  model = req.model;
  max_tokens = if leb_ℤ req.max_tokens (pos 0) then default_max_tokens else req.max_tokens;
  system = req.system;
  messages = anthropic_messages req.messages;
  stream = false;
}

unfoldable pub parse_anthropic_error : {B : Type 0} → Answer B → Failure
parse_anthropic_error a = provider_error (record {
  status_code = a.status;
  kind = or_text a.envelope.kind "unknown_error";
  message = or_text a.envelope.message "unknown anthropic error";
  retry_after = or_zero a.retry_after;
})

-- The texts of the blocks, one after the other.
unfoldable pub text_content : List AnthropicContentBlock → String
text_content [] = ""
text_content (b ∷ blocks) =
    let rest = text_content blocks in if str_eq b.kind "text" then String.◌++◌ b.text rest else rest

unfoldable pub total_in : ℤ → ℤ → ℤ → ℤ
total_in input creation read = int64 (int64 (input +ℤ creation) +ℤ read)

module _ {F : Type 0} ⦃d : Float F⦄ where
  unfoldable pub anthropic_response : Request F → AnthropicResponse → Completion F
  anthropic_response req parsed =
      let u = parsed.usage in
      let tokens_in =
        total_in u.input_tokens u.cache_creation_input_tokens u.cache_read_input_tokens in
      completed (record {
        id = parsed.id;
        model = parsed.model;
        content = text_content parsed.content;
        finish_reason = parsed.stop_reason;
        usage = record { tokens_in = tokens_in; tokens_out = u.output_tokens };
        cost_usd = cost_usd req.model tokens_in u.cache_read_input_tokens u.output_tokens;
      })

  unfoldable pub anthropic_body : Request F → Answer AnthropicResponse → Completion F
  anthropic_body req a = elim a.body [
    | inl parsed ↦ anthropic_response req parsed
    | inr e ↦ failed (other_error (String.◌++◌ "anthropic: decode response: " e))
  ]

  -- `Complete`, behind the call of `do`
  unfoldable pub anthropic_completion : Request F → Exchange AnthropicResponse → Completion F
  anthropic_completion req (unsent s) = failed (other_error s)
  anthropic_completion req (answered a) =
      if leb_ℤ (pos 400) a.status then failed (parse_anthropic_error a) else anthropic_body req a

-- The variables of `Stream`.
pub record Progress : Type 0 where
  pub input : ℤ
  pub creation : ℤ
  pub read : ℤ
  pub output : ℤ
  pub finish_reason : String

abbrev pub nothing_yet : Progress
nothing_yet = record {
  input = pos 0;
  creation = pos 0;
  read = pos 0;
  output = pos 0;
  finish_reason = "";
}

unfoldable pub last_chunk : Progress → StreamChunk
last_chunk p = record {
  delta_content = "";
  done = true;
  finish_reason = p.finish_reason;
  usage = record { tokens_in = total_in p.input p.creation p.read; tokens_out = p.output };
}

unfoldable pub delta_chunk : String → StreamChunk
delta_chunk text = record {
  delta_content = text;
  done = false;
  finish_reason = "";
  usage = record { tokens_in = pos 0; tokens_out = pos 0 };
}

module _ {W : Type 0} (write : Writer W) where
  -- One event; `rest` is the loop behind it.
  unfoldable pub on_event :
      (Progress → W → Option Failure × W) → AnthropicEvent → Progress → W → Option Failure × W
  on_event rest (message_start u) p w =
      rest
        (record p {
          input = u.input_tokens;
          creation = u.cache_creation_input_tokens;
          read = u.cache_read_input_tokens;
        })
        w
  on_event rest (content_block_delta kind text) p w =
      if str_eq kind "text_delta"
      then unless_failed (rest p) (write (delta_chunk text) w)
      else rest p w
  on_event rest (message_delta u stop_reason) p w =
      rest
        (record p { output = u.output_tokens; finish_reason = or_text stop_reason p.finish_reason })
        w
  on_event rest message_stop p w = write (last_chunk p) w
  on_event rest other_event p w = rest p w
  on_event rest (error_event e) p w = (
    some (
        provider_error (record {
          status_code = pos 0;
          kind = e.kind;
          message = e.message;
          retry_after = pos 0;
        })),
    w,
  )

  -- The loop over the events, of which `none` is a line that is no event.
  unfoldable pub stream_events :
      Option Failure → List (Option AnthropicEvent) → Progress → W → Option Failure × W
  stream_events scan_error [] p w = (scan_error, w)
  stream_events scan_error (none ∷ events) p w = stream_events scan_error events p w
  stream_events scan_error (some e ∷ events) p w = on_event (stream_events scan_error events) e p w

-- The JSON text of an event, read.
module _ (decode_event : String → Option AnthropicEvent) where
  unfoldable pub event_of_line : String → Option AnthropicEvent
  event_of_line line =
      if starts_with line "data: " then decode_event (slice line 6 (len line)) else none

  unfoldable pub events_of : List String → List (Option AnthropicEvent)
  events_of [] = []
  events_of (line ∷ lines) = event_of_line line ∷ events_of lines

  -- `Stream`, behind the call of `do`
  unfoldable pub anthropic_stream :
      {W : Type 0} → Writer W → Exchange AnthropicResponse → W → Option Failure × W
  anthropic_stream write (unsent s) w = (some (other_error s), w)
  anthropic_stream write (answered a) w =
      if leb_ℤ (pos 400) a.status
      then (some (parse_anthropic_error a), w)
      else stream_events write (scanner_failure a.scan_error) (events_of a.lines) nothing_yet w

  -- The provider, with what `do` gives for a request.
  unfoldable pub anthropic_provider :
      {F : Type 0} ⦃d : Float F⦄ → (AnthropicRequest → Exchange AnthropicResponse) → Provider F
  anthropic_provider post = record {
    name = "anthropic";
    complete = λ req. anthropic_completion req (post (to_anthropic_request req));
    stream = λ write req w.
        anthropic_stream write (post (record (to_anthropic_request req) { stream = true })) w;
  }
