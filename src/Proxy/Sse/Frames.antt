-- ===== src/Proxy/Sse/Frames.antt =====
-- What a client receives of a stream.
use mathlib.Core.List.{append_assoc, append-nil}
use budget_governor.Prelude.{
  ℕ, suc, String, Bool, true, false, Option, none, some, inl, List, [], ◌∷◌, ◌++◌, ◌≡◌, refl, sym,
  ◌∙◌, if◌then◌else◌,
}
use budget_governor.Provider.Types.{Usage, StreamChunk, Failure}
use budget_governor.Proxy.Sse.{
  Transport, SseChunkPayload, SseChunkWriter, new_writer, done_frame, ensure_headers, payload_of,
  send_texts, send_payload, write_chunk,
}

-- A provider's calls of `Write`, until one fails.
unfoldable pub write_chunks :
    Transport → List StreamChunk → SseChunkWriter → Option Failure × SseChunkWriter
write_chunks t [] w = (none, w)
write_chunks t (chunk ∷ chunks) w =
    let (e, w') = write_chunk t chunk w in
    elim e [ none ↦ write_chunks t chunks w' | some f ↦ (some f, w') ]

module _ (json : SseChunkPayload → String) (id model : String) where
  -- The texts of one event, as the format of server-sent events asks for.
  abbrev pub frame : StreamChunk → List String
  frame chunk =
      if chunk.done
      then done_frame ∷ []
      else "data: " ∷ json (payload_of chunk (new_writer id model)) ∷ "\n\n" ∷ []

  abbrev pub frames : List StreamChunk → List String
  frames [] = []
  frames (chunk ∷ chunks) = frame chunk ++ frames chunks

-- The usage of the latest chunk that is marked as the last, or else `u`.
abbrev pub last_usage : Usage → List StreamChunk → Usage
last_usage u [] = u
last_usage u (chunk ∷ chunks) = last_usage (if chunk.done then chunk.usage else u) chunks

-- These texts were added, without an error, and this usage is remembered.
pub record IsSent (texts : List String) (u : Usage) (w : SseChunkWriter)
    (out : Option Failure × SseChunkWriter) : Type 0 where
  pub no_error : out.0 ≡ none
  pub sent : out.1.sent ≡ w.sent ++ texts
  pub usage : out.1.final_usage ≡ u
  pub same_id : out.1.id ≡ w.id
  pub same_model : out.1.model ≡ w.model

module _ (t : Transport) (json : SseChunkPayload → String) (whole : (n : ℕ) → t.broken n ≡ none)
    (texts : (p : SseChunkPayload) → t.marshal p ≡ inl (json p)) where
  send_texts-IsSent :
      (xs : List String) (w : SseChunkWriter) → IsSent xs w.final_usage w (send_texts t xs w)
  unfolding send_texts
  send_texts-IsSent [] w = record {
    no_error = refl;
    sent = sym (append-nil w.sent);
    usage = refl;
    same_id = refl;
    same_model = refl;
  }
  send_texts-IsSent (x ∷ xs) w =
      let f = send_texts-IsSent xs (record w { writes = suc w.writes; sent = w.sent ++ x ∷ [] }) in
      rw (whole w.writes, send_texts)
        (record {
          no_error = f.no_error;
          sent = f.sent ∙ append_assoc w.sent (x ∷ []) xs;
          usage = f.usage;
          same_id = f.same_id;
          same_model = f.same_model;
        })

  either-IsSent :
      (b : Bool) (xs ys : List String) (u v : Usage) (w : SseChunkWriter)
      (out out' : Option Failure × SseChunkWriter)
      → IsSent xs u w out
      → IsSent ys v w out'
      → IsSent (if b then xs else ys) (if b then u else v) w (if b then out else out')
  either-IsSent true xs ys u v w out out' f g = f
  either-IsSent false xs ys u v w out out' f g = g

  write_chunk-IsSent :
      (chunk : StreamChunk) (w : SseChunkWriter)
      → IsSent
          (frame json w.id w.model chunk)
          (if chunk.done then chunk.usage else w.final_usage)
          w
          (write_chunk t chunk w)
  unfolding write_chunk ensure_headers send_payload payload_of new_writer
  write_chunk-IsSent chunk w =
      let w' = ensure_headers w in
      let p = payload_of chunk w' in
      let done = send_texts-IsSent (done_frame ∷ []) (record w' { final_usage = chunk.usage }) in
      let delta = send_texts-IsSent ("data: " ∷ json p ∷ "\n\n" ∷ []) w' in
      either-IsSent chunk.done _ _ _ _ w _ _
        (record {
          no_error = done.no_error;
          sent = done.sent;
          usage = done.usage;
          same_id = done.same_id;
          same_model = done.same_model;
        })
        (rw (texts p) (record {
          no_error = delta.no_error;
          sent = delta.sent;
          usage = delta.usage;
          same_id = delta.same_id;
          same_model = delta.same_model;
        }))

  -- If the connection takes every text and every payload has a JSON text, then a provider may write
  -- any chunks one after the other, and the client receives behind what it had exactly one event for
  -- each, in order, which for a last chunk is the end mark; no write fails, and the usage that is
  -- remembered for the bill is that of the latest last chunk, or else the one before.
  pub write_chunks-IsSent :
      (chunks : List StreamChunk) (w : SseChunkWriter)
      → IsSent
          (frames json w.id w.model chunks)
          (last_usage w.final_usage chunks)
          w
          (write_chunks t chunks w)
  unfolding write_chunks send_texts
  write_chunks-IsSent [] w = send_texts-IsSent [] w
  write_chunks-IsSent (chunk ∷ chunks) w =
      let f = write_chunk-IsSent chunk w in
      let w' = (write_chunk t chunk w).1 in
      let g = write_chunks-IsSent chunks w' in
      let here = frame json w.id w.model chunk in
      let rest = frames json w.id w.model chunks in
      rw (f.no_error, write_chunks)
        (record {
          no_error = g.no_error;
          sent = cc (g.sent, f.sent, f.same_id, f.same_model, append_assoc w.sent here rest);
          usage = cc (g.usage, f.usage);
          same_id = g.same_id ∙ f.same_id;
          same_model = g.same_model ∙ f.same_model;
        })
