-- ===== src/Provider/Mock.antt =====
-- gateway/internal/provider/mock.go. The texts, the identifiers, the square root and the moments at
-- which the caller cancels are parameters.
pub mod Bounds
use Prim.Native.String
use text.Mathlib.Text.{find?}
use budget_governor.Prelude.{
  ℕ, suc, String, Bool, true, false, ◌&&◌, Option, none, some, List, [], ◌∷◌, if◌then◌else◌,
}
use budget_governor.Prelude.Int.{ℤ, pos, ltb_ℤ, leb_ℤ, ◌+ℤ◌, ◌-ℤ◌}
use budget_governor.Prelude.Float.{Float}
use budget_governor.Provider.Http.{unless_failed}
use budget_governor.Provider.Pricing.{cost_usd}
use budget_governor.Provider.Tokenizer.{Unicode, estimate_messages_tokens}
use budget_governor.Provider.Types.{
  Request, Usage, StreamChunk, Failure, Completion, completed, failed, Writer, Provider,
}

-- The text of a completion for a model, the tokens in and the tokens out; the words of the streamed
-- one; an identifier; math.Sqrt; and whether the caller cancels during the n-th wait, from 0.
pub record Simulation (F : Type 0) : Type 0 where
  pub text : String → ℤ → ℤ → String
  pub words : String → ℤ → ℤ → List String
  pub mock_id : String
  pub sqrt : F → F
  pub unicode : Unicode
  pub cancelled : ℕ → Option Failure

abbrev found : Option ℕ → Bool
found none = false
found (some i) = true

-- strings.Contains
abbrev text_contains : String → String → Bool
text_contains s t = found (find? s t)

-- A number of tokens in, which is always there.
abbrev pub counted : Option ℕ → ℤ
counted none = pos 0
counted (some n) = pos n

-- `latency`, where `draw` is mrand.Int63n and the durations fit into an int64
unfoldable pub latency : (ℤ → ℤ) → ℤ → ℤ → ℤ
latency draw min_latency max_latency =
    let spread = max_latency -ℤ min_latency in
    if leb_ℤ spread (pos 0) then min_latency else min_latency +ℤ draw spread

abbrev pub unless_cancelled : {A : Type 0} → Option Failure → (Failure → A) → A → A
unless_cancelled none f x = x
unless_cancelled (some e) f x = f e

-- The blank behind all words but the last.
abbrev pub suffix : List String → String
suffix [] = ""
suffix (word ∷ rest) = " "

abbrev pub word_chunk : String → List String → StreamChunk
word_chunk word rest = record {
  delta_content = String.◌++◌ word (suffix rest);
  done = false;
  finish_reason = "";
  usage = record { tokens_in = pos 0; tokens_out = pos 0 };
}

module _ {F : Type 0} ⦃d : Float F⦄ (s : Simulation F) where
  open d use {of_int, milli, add, mul, trunc}
  open s use {text, words, mock_id, sqrt, unicode, cancelled}

  unfoldable pub multiplier : String → F
  multiplier model =
      if text_contains model "large"
      then milli 1600
      else (if text_contains model "small" then milli 600 else of_int (pos 1))

  unfoldable pub simulated_output_tokens : String → ℤ → ℤ
  simulated_output_tokens model tokens_in =
      let scaled = mul (sqrt (of_int tokens_in)) (of_int (pos 8)) in
      let out = trunc (mul (add (of_int (pos 24)) scaled) (multiplier model)) in
      if ltb_ℤ (pos 4096) out then pos 4096 else out

  unfoldable pub mock_tokens_in : Request F → ℤ
  mock_tokens_in req = counted (estimate_messages_tokens unicode req.system req.messages)

  unfoldable pub mock_tokens_out : Request F → ℤ
  mock_tokens_out req =
      let out = simulated_output_tokens req.model (mock_tokens_in req) in
      if ltb_ℤ (pos 0) req.max_tokens && ltb_ℤ req.max_tokens out then req.max_tokens else out

  unfoldable pub mock_usage : Request F → Usage
  mock_usage req = record { tokens_in = mock_tokens_in req; tokens_out = mock_tokens_out req }

  -- `Complete`
  unfoldable pub mock_complete : Request F → Completion F
  mock_complete req =
      let u = mock_usage req in
      unless_cancelled (cancelled 0) failed (
        completed (record {
          id = mock_id;
          model = req.model;
          content = text req.model u.tokens_in u.tokens_out;
          finish_reason = "stop";
          usage = u;
          cost_usd = cost_usd req.model u.tokens_in (pos 0) u.tokens_out;
        }))

  abbrev pub mock_last : Request F → StreamChunk
  mock_last req = record {
    delta_content = "";
    done = true;
    finish_reason = "stop";
    usage = mock_usage req;
  }

  -- The loop of `Stream` behind its n-th wait, and the last chunk.
  unfoldable pub stream_words :
      {W : Type 0} → Writer W → Request F → ℕ → List String → W → Option Failure × W
  stream_words write req n [] w = write (mock_last req) w
  stream_words write req n (word ∷ rest) w =
      unless_failed
        (λ w'.
          unless_cancelled (cancelled n) (λ e. (some e, w'))
            (stream_words write req (suc n) rest w'))
        (write (word_chunk word rest) w)

  -- `Stream`
  unfoldable pub mock_stream : {W : Type 0} → Writer W → Request F → W → Option Failure × W
  mock_stream write req w =
      let u = mock_usage req in
      unless_cancelled (cancelled 0) (λ e. (some e, w))
        (stream_words write req 1 (words req.model u.tokens_in u.tokens_out) w)

  unfoldable pub mock_provider : Provider F
  mock_provider = record {
    name = "mock";
    complete = mock_complete;
    stream = λ write req w. mock_stream write req w;
  }
