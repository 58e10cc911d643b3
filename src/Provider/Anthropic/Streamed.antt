-- ===== src/Provider/Anthropic/Streamed.antt =====
-- What the adapter writes of a stream, and the messages that are sent.
use mathlib.Core.List.{append_assoc, append-nil}
use budget_governor.Prelude.{
  String, true, false, ◌⊎◌, inl, inr, Option, none, some, List, [], ◌∷◌, ◌++◌, map, ◌≡◌, refl, sym,
  ap, ◌∙◌, arith, All, if-both, str_eq, Bool-cases, if◌then◌else◌,
}
use budget_governor.Prelude.Int.{pos, ◌≤ℤ◌, ◌+ℤ◌, int64}
use budget_governor.Provider.Types.{Message, StreamChunk, Failure, Writer}
use budget_governor.Provider.Anthropic.{
  AnthropicEvent, message_start, content_block_delta, message_delta, message_stop, other_event,
  error_event, Progress, total_in, last_chunk, delta_chunk, on_event, stream_events,
  anthropic_messages, to_anthropic_request,
}
use budget_governor.Proxy.Requests.{
  ClientMessage, ClientChatRequest, normalized, to_provider_request,
}
use budget_governor.Proxy.Requests.Split.{IsFilled, IsSplit, to_provider_request-IsSplit}

-- A writer that keeps all chunks.
abbrev pub recorder : Writer (List StreamChunk)
recorder chunk w = (none, w ++ chunk ∷ [])

-- What the events tell up to the first that ends the stream: the usage of the last message_start, the
-- output of the last message_delta, and the last stop reason that is not empty.
abbrev pub told : List (Option AnthropicEvent) → Progress → Progress
told [] p = p
told (none ∷ events) p = told events p
told (some (message_start u) ∷ events) p = told events (record {
  input = u.input_tokens;
  creation = u.cache_creation_input_tokens;
  read = u.cache_read_input_tokens;
  output = p.output;
  finish_reason = p.finish_reason;
})
told (some (content_block_delta kind text) ∷ events) p = told events p
told (some (message_delta u reason) ∷ events) p = told events (record {
  input = p.input;
  creation = p.creation;
  read = p.read;
  output = u.output_tokens;
  finish_reason = if str_eq reason "" then p.finish_reason else reason;
})
told (some message_stop ∷ events) p = p
told (some other_event ∷ events) p = told events p
told (some (error_event e) ∷ events) p = p

-- The chunk with the usage.
abbrev pub closing : Progress → StreamChunk
closing p = record {
  delta_content = "";
  done = true;
  finish_reason = p.finish_reason;
  usage = record {
    tokens_in = int64 (int64 (p.input +ℤ p.creation) +ℤ p.read);
    tokens_out = p.output;
  };
}

-- Chunks that are not the last were written, and then one that is the last, with what was told, and
-- ends the stream without an error, or none.
abbrev pub IsOrdered : Progress → List StreamChunk → Option Failure × List StreamChunk → Type 0
IsOrdered q w (e, w') =
    (deltas : List StreamChunk) × (ends : List StreamChunk) × (w' ≡ w ++ (deltas ++ ends))
    × All (λ c. c.done ≡ false) deltas
    × ((ends ≡ []) ⊎ ((ends ≡ closing q ∷ []) × (e ≡ none)))

IsOrdered-cons :
    (q : Progress) (w : List StreamChunk) (c : StreamChunk)
    (out : Option Failure × List StreamChunk)
    → c.done ≡ false
    → IsOrdered q (w ++ c ∷ []) out
    → IsOrdered q w out
IsOrdered-cons q w c (e, w') before (deltas, ends, written, all, at_end) =
    (c ∷ deltas, ends, written ∙ append_assoc w (c ∷ []) (deltas ++ ends), (before, all), at_end)

stopped-IsOrdered :
    (q : Progress) (e : Option Failure) (w : List StreamChunk) → IsOrdered q w (e, w)
stopped-IsOrdered q e w = ([], [], sym (append-nil w), tt, inl refl)

-- Whatever events come, into a writer that takes every chunk the adapter writes text chunks, then at
-- most one chunk with the usage that the events told, which is the last thing that it writes and ends
-- the stream without an error.
pub stream_events-IsOrdered :
    (scan_error : Option Failure) (events : List (Option AnthropicEvent)) (p : Progress)
    (w : List StreamChunk)
    → IsOrdered (told events p) w (stream_events recorder scan_error events p w)
unfolding stream_events on_event delta_chunk last_chunk total_in
stream_events-IsOrdered scan_error [] p w = stopped-IsOrdered p scan_error w
stream_events-IsOrdered scan_error (none ∷ events) p w =
    stream_events-IsOrdered scan_error events p w
stream_events-IsOrdered scan_error (some (message_start u) ∷ events) p w =
    stream_events-IsOrdered scan_error events _ w
stream_events-IsOrdered scan_error (some (content_block_delta kind text) ∷ events) p w =
    let after = stream_events-IsOrdered scan_error events p (w ++ delta_chunk text ∷ []) in
    let skipped = stream_events-IsOrdered scan_error events p w in
    if-both (IsOrdered (told events p) w) (str_eq kind "text_delta") _ _
      (λ _. IsOrdered-cons (told events p) w (delta_chunk text) _ refl after) (λ _. skipped)
stream_events-IsOrdered scan_error (some (message_delta u reason) ∷ events) p w =
    stream_events-IsOrdered scan_error events _ w
stream_events-IsOrdered scan_error (some message_stop ∷ events) p w =
    ([], closing p ∷ [], refl, tt, inr (refl, refl))
stream_events-IsOrdered scan_error (some other_event ∷ events) p w =
    stream_events-IsOrdered scan_error events p w
stream_events-IsOrdered scan_error (some (error_event e) ∷ events) p w = stopped-IsOrdered p _ w

-- The messages of a client that do not have the role "system".
unfoldable pub others_of : List ClientMessage → List ClientMessage
others_of [] = []
others_of (m ∷ messages) =
    let rest = others_of messages in if str_eq m.role "system" then rest else m ∷ rest

anthropic_messages-normalized :
    (messages : List ClientMessage)
    → anthropic_messages (map normalized messages) ≡ map normalized (others_of messages)
unfolding anthropic_messages others_of
anthropic_messages-normalized [] = refl
anthropic_messages-normalized (m ∷ messages) = elim (Bool-cases (str_eq m.role "system")) [
  | inl e ↦ rw e (anthropic_messages-normalized messages)
  | inr e ↦ rw e (ap (◌∷◌ (normalized m)) (anthropic_messages-normalized messages))
]

others_of-middle :
    (before : List ClientMessage) (x : ClientMessage) (after : List ClientMessage)
    → str_eq x.role "system" ≡ true
    → others_of (before ++ x ∷ after) ≡ others_of (before ++ after)
unfolding others_of
others_of-middle [] x after h = rw h refl
others_of-middle (m ∷ before) x after h =
    ap (λ l. if str_eq m.role "system" then l else m ∷ l) (others_of-middle before x after h)

messages-IsSplit :
    (messages : List ClientMessage) (system : String) (out : List Message)
    → IsSplit [] messages (system, out)
    → anthropic_messages out ≡ map normalized (others_of messages)
messages-IsSplit messages system out (inl (_, _, e)) =
    ap anthropic_messages e ∙ anthropic_messages-normalized messages
messages-IsSplit messages system out (inr (before, x, after, split, _, role, _, e)) =
    ap anthropic_messages e
    ∙ anthropic_messages-normalized (before ++ after)
    ∙ ap (map normalized) (sym (others_of-middle before x after role) ∙ ap others_of (sym split))

-- If no message of a client is empty, the messages that are sent to Anthropic are exactly those of
-- the client that do not have the role "system", in order; and at least one token is asked for.
pub to_anthropic_request-to_provider_request :
    {F : Type 0} (r : ClientChatRequest F)
    → All IsFilled r.messages
    → let sent = to_anthropic_request (to_provider_request r) in
      (sent.messages ≡ map normalized (others_of r.messages)) × (pos 1 ≤ℤ sent.max_tokens)
unfolding to_anthropic_request
to_anthropic_request-to_provider_request r filled =
    let out = to_provider_request r in
    (
      messages-IsSplit r.messages out.system out.messages (to_provider_request-IsSplit r filled),
      ground arith,
    )
