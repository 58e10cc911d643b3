-- ===== src/Proxy/Sse.antt =====
-- The chunk writer of gateway/internal/proxy/stream.go.
pub mod Frames
use budget_governor.Prelude.{
  ℕ, suc, String, Bool, true, false, ◌⊎◌, inl, inr, Option, none, some, List, [], ◌∷◌, ◌++◌, str_eq,
  if◌then◌else◌,
}
use budget_governor.Prelude.Int.{ℤ, pos}
use budget_governor.Provider.Types.{Usage, StreamChunk, Failure}

pub record SseChoice : Type 0 where
  pub index : ℤ
  pub content : String
  -- `none` is null
  pub finish_reason : Option String

pub record SseChunkPayload : Type 0 where
  pub id : String
  pub object : String
  pub model : String
  pub choices : List SseChoice

-- The connection to the client: whether it can be flushed, the JSON text of a payload, and what is
-- wrong with its n-th write, from 0.
pub record Transport : Type 0 where
  pub flushes : Bool
  pub marshal : SseChunkPayload → String ⊎ Failure
  pub broken : ℕ → Option Failure

-- `sent` are the texts that the connection took, `writes` counts the attempts, and `headers` are
-- those that were set.
pub record SseChunkWriter : Type 0 where
  pub id : String
  pub model : String
  pub wrote_headers : Bool
  pub final_usage : Usage
  pub headers : List (String × String)
  pub sent : List String
  pub writes : ℕ

-- As `streamDispatch` makes it.
unfoldable pub new_writer : String → String → SseChunkWriter
new_writer id model = record {
  id = id;
  model = model;
  wrote_headers = false;
  final_usage = record { tokens_in = pos 0; tokens_out = pos 0 };
  headers = [];
  sent = [];
  writes = 0;
}

unfoldable pub ensure_headers : SseChunkWriter → SseChunkWriter
ensure_headers w = record w {
  headers =
      if w.wrote_headers
      then w.headers
      else w.headers
        ++ ("Content-Type", "text/event-stream")
          ∷ ("Cache-Control", "no-cache")
          ∷ ("Connection", "keep-alive")
          ∷ [];
  wrote_headers = true;
}

abbrev pub done_frame : String
done_frame = "data: [DONE]\n\n"

unfoldable pub payload_of : StreamChunk → SseChunkWriter → SseChunkPayload
payload_of chunk w = record {
  id = w.id;
  object = "chat.completion.chunk";
  model = w.model;
  choices =
      record {
        index = pos 0;
        content = chunk.delta_content;
        finish_reason = if str_eq chunk.finish_reason "" then none else some chunk.finish_reason;
      }
      ∷ [];
}

module _ (t : Transport) where
  open t use {broken, marshal}

  abbrev take_text : String → SseChunkWriter → SseChunkWriter
  take_text text w = record w { sent = w.sent ++ text ∷ [] }

  -- The texts one after the other, until one fails.
  unfoldable pub send_texts : List String → SseChunkWriter → Option Failure × SseChunkWriter
  send_texts [] w = (none, w)
  send_texts (text ∷ texts) w =
      let w' = record w { writes = suc w.writes } in
      elim (broken w.writes) [ some e ↦ (some e, w') | none ↦ send_texts texts (take_text text w') ]

  unfoldable pub send_payload : String ⊎ Failure → SseChunkWriter → Option Failure × SseChunkWriter
  send_payload (inl b) w = send_texts ("data: " ∷ b ∷ "\n\n" ∷ []) w
  send_payload (inr e) w = (some e, w)

  -- `Write`
  unfoldable pub write_chunk : StreamChunk → SseChunkWriter → Option Failure × SseChunkWriter
  write_chunk chunk w =
      let w' = ensure_headers w in
      if chunk.done
      then send_texts (done_frame ∷ []) (record w' { final_usage = chunk.usage })
      else send_payload (marshal (payload_of chunk w')) w'
