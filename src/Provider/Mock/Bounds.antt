-- ===== src/Provider/Mock/Bounds.antt =====
-- The mock keeps within its limits, and what it streams.
use mathlib.Core.List.{append_assoc}
use budget_governor.Prelude.{
  ℕ, suc, String, ◌⊎◌, inl, inr, none, List, [], ◌∷◌, ◌++◌, ◌≡◌, refl, ap, ◌∙◌, arith, Bool-cases,
  Option-cases,
}
use budget_governor.Prelude.Int.{ℤ, pos, ◌-ℤ◌, ◌≤ℤ◌, ◌<ℤ◌, leb_ℤ, +ℤ_parts, -ℤ_parts}
use budget_governor.Prelude.Float.{Float}
use budget_governor.Provider.Types.{Request, StreamChunk}
use budget_governor.Provider.Mock.{
  Simulation, latency, simulated_output_tokens, mock_tokens_in, mock_tokens_out, mock_usage,
  word_chunk, mock_last, stream_words, mock_stream,
}
use budget_governor.Provider.Anthropic.Streamed.{recorder}
use budget_governor.Provider.Tokenizer.{estimate_messages_tokens}
use budget_governor.Proxy.Handler.{estimated, output_estimate}

-- The words, each but the last with a blank, and the last chunk.
unfoldable pub word_chunks : List String → List StreamChunk
word_chunks [] = []
word_chunks (word ∷ rest) = word_chunk word rest ∷ word_chunks rest

module _ {F : Type 0} ⦃d : Float F⦄ (s : Simulation F) where
  simulated_output_tokens-bound :
      (model : String) (tokens_in : ℤ) → simulated_output_tokens s model tokens_in ≤ℤ pos 4096
  unfolding simulated_output_tokens
  simulated_output_tokens-bound model tokens_in = ground arith

  mock_tokens_in-estimated :
      (req : Request F)
      → mock_tokens_in s req
        ≡ estimated (estimate_messages_tokens s.unicode req.system req.messages)
  unfolding mock_tokens_in
  mock_tokens_in-estimated req =
      elim (Option-cases (estimate_messages_tokens s.unicode req.system req.messages)) [
        | inl e ↦ rw e refl
        | inr (n, e) ↦ rw e refl
      ]

  -- Where the client sets a limit, the mock reports for the prompt exactly the tokens that the gateway
  -- estimates for it, if both have the same character classes, and for the completion no more than
  -- the limit, which is what the gateway reserves for it, and never more than 4096.
  pub mock_usage_bound :
      (req : Request F)
      → pos 0 <ℤ req.max_tokens
      → let u = mock_usage s req in
        (u.tokens_in ≡ estimated (estimate_messages_tokens s.unicode req.system req.messages))
        × (output_estimate req ≡ req.max_tokens)
        × (u.tokens_out ≤ℤ output_estimate req)
        × (u.tokens_out ≤ℤ pos 4096)
  unfolding mock_usage mock_tokens_out output_estimate
  mock_usage_bound req h =
      let b = simulated_output_tokens-bound req.model (mock_tokens_in s req) in
      (mock_tokens_in-estimated req, ground (arith, h), ground (arith, h, b), ground (arith, h, b))

  module _ (patient : (n : ℕ) → s.cancelled n ≡ none) (req : Request F) where
    stream_words-recorder :
        (n : ℕ) (ws : List String) (w : List StreamChunk)
        → stream_words s recorder req n ws w ≡ (none, w ++ (word_chunks ws ++ mock_last s req ∷ []))
    unfolding stream_words word_chunks
    stream_words-recorder n [] w = refl
    stream_words-recorder n (word ∷ rest) w = rw (patient n) (
        stream_words-recorder (suc n) rest (w ++ word_chunk word rest ∷ [])
        ∙ ap (λ l. (none, l)) (append_assoc w (word_chunk word rest ∷ []) _))

    -- If the caller does not cancel, the mock streams exactly its words, in order and each but the
    -- last with a blank, and then one last chunk with the usage that it reports for a completion.
    pub mock_stream-recorder :
        (w : List StreamChunk)
        → let u = mock_usage s req in
          mock_stream s recorder req w ≡ (
            none,
            w ++ (word_chunks (s.words req.model u.tokens_in u.tokens_out) ++ mock_last s req ∷ []),
          )
    unfolding mock_stream
    mock_stream-recorder w = rw (patient 0) (stream_words-recorder 1 _ w)

-- If the generator keeps its contract, that a number drawn below a positive bound is not negative and
-- less than the bound, then a wait is never shorter than the minimum, and is less than the maximum
-- unless the maximum is not above the minimum.
pub latency_bounds :
    (draw : ℤ → ℤ) (min_latency max_latency : ℤ)
    → ((n : ℤ) → pos 0 <ℤ n → (pos 0 ≤ℤ draw n) × (draw n <ℤ n))
    → let t = latency draw min_latency max_latency in
      (min_latency ≤ℤ t) × ((t ≡ min_latency) ⊎ (t <ℤ max_latency))
unfolding latency
latency_bounds draw min_latency max_latency h =
    let spread = max_latency -ℤ min_latency in
    elim (Bool-cases (leb_ℤ spread (pos 0))) [
      | inl none_left ↦ rw none_left (omega arith, inl refl)
      | inr some_left ↦
          let (low, high) = h spread (ground (arith, some_left)) in
          let sum = +ℤ_parts min_latency (draw spread) in
          let difference = -ℤ_parts max_latency min_latency in
          rw some_left (omega (arith, sum, low), inr (omega (arith, sum, difference, high)))
    ]
