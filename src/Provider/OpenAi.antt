-- ===== src/Provider/OpenAi.antt =====
-- gateway/internal/provider/openai.go. HTTP and JSON are parameters.
pub mod Completed
pub mod Sent
use Prim.Native.String.{len, slice}
use Prim.Native.String
use text.Mathlib.Text.{starts_with}
use budget_governor.Prelude.{
  String, Bool, true, false, ◌||◌, inl, inr, Option, none, some, List, [], ◌∷◌, ◌++◌, str_eq,
  if◌then◌else◌,
}
use budget_governor.Prelude.Int.{ℤ, pos, leb_ℤ}
use budget_governor.Prelude.Float.{Float, nought}
use budget_governor.Provider.Http.{
  Answer, Exchange, unsent, answered, or_text, or_zero, scanner_failure, unless_failed,
}
use budget_governor.Provider.Pricing.{cost_usd}
use budget_governor.Provider.Types.{
  Message, Request, Usage, StreamChunk, Failure, provider_error, other_error, Completion, completed,
  failed, Writer, Provider,
}

-- `stream_options` is always set, and asks for the usage.
pub record OpenAiChatRequest (F : Type 0) : Type 0 where
  pub model : String
  pub messages : List Message
  pub max_completion_tokens : ℤ
  pub temperature : Option F
  pub stream : Bool
  pub include_usage : Bool

pub record OpenAiUsage : Type 0 where
  pub prompt_tokens : ℤ
  pub completion_tokens : ℤ
  pub cached_tokens : ℤ

pub record OpenAiChoice : Type 0 where
  pub content : String
  pub finish_reason : String

pub record OpenAiChatResponse : Type 0 where
  pub id : String
  pub model : String
  pub choices : List OpenAiChoice
  pub usage : OpenAiUsage

pub record OpenAiDelta : Type 0 where
  pub content : String
  pub finish_reason : Option String

pub record OpenAiChunk : Type 0 where
  pub choices : List OpenAiDelta
  pub usage : Option OpenAiUsage

unfoldable pub openai_messages : String → List Message → List Message
openai_messages system messages =
    (if str_eq system "" then [] else record { role = "system"; content = system } ∷ []) ++ messages

module _ {F : Type 0} ⦃d : Float F⦄ where
  open d use {lt}

  unfoldable pub to_openai_request : Request F → OpenAiChatRequest F
  to_openai_request req = record {
    model = req.model;
    messages = openai_messages req.system req.messages;
    max_completion_tokens = req.max_tokens;
    temperature =
        if lt req.temperature nought || lt nought req.temperature
        then some req.temperature
        else none;
    stream = req.stream;
    include_usage = true;
  }

module _ {B : Type 0} where
  unfoldable pub parse_openai_error : Answer B → Failure
  parse_openai_error a = provider_error (record {
    status_code = a.status;
    kind = or_text a.envelope.kind "unknown_error";
    message = or_text a.envelope.message "unknown openai error";
    retry_after = or_zero a.retry_after;
  })

module _ {F : Type 0} ⦃d : Float F⦄ where
  -- A body that could be decoded.
  unfoldable pub openai_response : Request F → OpenAiChatResponse → List OpenAiChoice → Completion F
  openai_response req parsed [] =
      failed (other_error (String.◌++◌ "openai: empty choices in response " parsed.id))
  openai_response req parsed (choice ∷ choices) =
      let u = parsed.usage in
      completed (record {
        id = parsed.id;
        model = parsed.model;
        content = choice.content;
        finish_reason = choice.finish_reason;
        usage = record { tokens_in = u.prompt_tokens; tokens_out = u.completion_tokens };
        cost_usd = cost_usd req.model u.prompt_tokens u.cached_tokens u.completion_tokens;
      })

  unfoldable pub openai_body : Request F → Answer OpenAiChatResponse → Completion F
  openai_body req a = elim a.body [
    | inl parsed ↦ openai_response req parsed parsed.choices
    | inr e ↦ failed (other_error (String.◌++◌ "openai: decode response: " e))
  ]

  -- `Complete`, behind the call of `do`
  unfoldable pub openai_completion : Request F → Exchange OpenAiChatResponse → Completion F
  openai_completion req (unsent s) = failed (other_error s)
  openai_completion req (answered a) =
      if leb_ℤ (pos 400) a.status then failed (parse_openai_error a) else openai_body req a

-- What one line of a stream comes to.
pub data Round : Type 0 where
  skip stop : Round
  send : StreamChunk → Round

abbrev zero_usage : Usage
zero_usage = record { tokens_in = pos 0; tokens_out = pos 0 }

abbrev finish_of : Option String → String
finish_of none = ""
finish_of (some s) = s

unfoldable pub first_delta : List OpenAiDelta → Round
first_delta [] = skip
first_delta (c ∷ choices) = send (record {
  delta_content = c.content;
  done = false;
  finish_reason = finish_of c.finish_reason;
  usage = zero_usage;
})

unfoldable pub round_of_chunk : Option OpenAiChunk → Round
round_of_chunk none = skip
round_of_chunk (some chunk) = elim chunk.usage [
  | some u ↦ send (record {
    delta_content = "";
    done = true;
    finish_reason = "";
    usage = record { tokens_in = u.prompt_tokens; tokens_out = u.completion_tokens };
  })
  | none ↦ first_delta chunk.choices
]

-- The JSON text of a chunk, read.
module _ (decode_chunk : String → Option OpenAiChunk) where
  unfoldable pub round_of : String → Round
  round_of line =
      let payload = slice line 6 (len line) in
      if starts_with line "data: "
      then (if str_eq payload "[DONE]" then stop else round_of_chunk (decode_chunk payload))
      else skip

  -- The loop of `Stream`.
  unfoldable pub stream_lines :
      {W : Type 0} → Writer W → Option Failure → List String → W → Option Failure × W
  stream_lines write scan_error [] w = (scan_error, w)
  stream_lines write scan_error (line ∷ lines) w = elim (round_of line) [
    | skip ↦ stream_lines write scan_error lines w
    | stop ↦ (none, w)
    | send chunk ↦ unless_failed (stream_lines write scan_error lines) (write chunk w)
  ]

  -- `Stream`, behind the call of `do`
  unfoldable pub openai_stream :
      {W : Type 0} → Writer W → Exchange OpenAiChatResponse → W → Option Failure × W
  openai_stream write (unsent s) w = (some (other_error s), w)
  openai_stream write (answered a) w =
      if leb_ℤ (pos 400) a.status
      then (some (parse_openai_error a), w)
      else stream_lines write (scanner_failure a.scan_error) a.lines w

  -- The provider, with what `do` gives for a request.
  unfoldable pub openai_provider :
      {F : Type 0} ⦃d : Float F⦄ → (OpenAiChatRequest F → Exchange OpenAiChatResponse) → Provider F
  openai_provider post = record {
    name = "openai";
    complete =
        λ req. openai_completion req (post (record (to_openai_request req) { stream = false }));
    stream = λ write req w.
        openai_stream write (post (record (to_openai_request req) { stream = true })) w;
  }
