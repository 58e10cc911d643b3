-- ===== src/Provider/Anthropic/Completed.antt =====
-- What is sent to Anthropic, and what each answer comes to.
use Prim.Native.String
use text.Mathlib.TextLemmas.{nil-append}
use budget_governor.Prelude.{
  List, [], ◌∷◌, sym, Bool-cases, str_eq, if◌then◌else◌, String, true, false, ◌⊎◌, inl, inr, ◌≡◌,
  refl, if-both,
}
use budget_governor.Prelude.Int.{pos, leb_ℤ, ◌+ℤ◌, int64}
use budget_governor.Prelude.Float.{Float}
use budget_governor.Provider.Http.{Answer, Exchange, unsent, answered, or_text_filled, IsReported}
use budget_governor.Provider.Pricing.{cost_usd}
use budget_governor.Provider.Types.{
  Request, provider_error, other_error, Completion, completed, failed,
}
use budget_governor.Provider.Anthropic.{
  AnthropicContentBlock, AnthropicResponse, parse_anthropic_error, anthropic_response,
  anthropic_body, text_content, total_in, anthropic_completion,
}

-- What one block adds to the text: its own, if it is one of text.
abbrev pub text_of_block : AnthropicContentBlock → String
text_of_block b = if str_eq b.kind "text" then b.text else ""

-- The texts of all blocks, one after the other.
abbrev pub joined : List AnthropicContentBlock → String
joined [] = ""
joined (b ∷ blocks) = String.◌++◌ (text_of_block b) (joined blocks)

text_content-joined : (blocks : List AnthropicContentBlock) → text_content blocks ≡ joined blocks
unfolding text_content
text_content-joined [] = refl
text_content-joined (b ∷ blocks) =
    let rest = text_content-joined blocks in
    elim (Bool-cases (str_eq b.kind "text")) [
      | inl e ↦ rw (e, rest) refl
      | inr e ↦ rw (e, rest) (sym (nil-append (joined blocks)))
    ]

module _ {F : Type 0} ⦃d : Float F⦄ (req : Request F) where
  -- A status below 400 with a body gives its text and its tokens, those of the cache included; one
  -- without gives an error without a status, as does a request that got no answer; and any other
  -- status is reported.
  abbrev pub IsAnthropicCompletion : Exchange AnthropicResponse → Completion F → Type 0
  IsAnthropicCompletion x (completed resp) =
      (a : Answer AnthropicResponse) × (parsed : AnthropicResponse) × (x ≡ answered a)
      × (leb_ℤ (pos 400) a.status ≡ false)
      × (a.body ≡ inl parsed)
      × (resp.content ≡ joined parsed.content)
      × (resp.usage.tokens_in
          ≡ int64 (
              int64 (parsed.usage.input_tokens +ℤ parsed.usage.cache_creation_input_tokens)
              +ℤ parsed.usage.cache_read_input_tokens))
      × (resp.usage.tokens_out ≡ parsed.usage.output_tokens)
      × (resp.cost_usd
          ≡ cost_usd req.model resp.usage.tokens_in parsed.usage.cache_read_input_tokens
              resp.usage.tokens_out)
  IsAnthropicCompletion x (failed (provider_error e)) =
      (a : Answer AnthropicResponse) × (x ≡ answered a)
      × (leb_ℤ (pos 400) a.status ≡ true)
      × IsReported a (provider_error e)
  IsAnthropicCompletion x (failed (other_error s)) =
      (x ≡ unsent s)
      ⊎ ((a : Answer AnthropicResponse) × (e : String) × (x ≡ answered a)
          × (leb_ℤ (pos 400) a.status ≡ false)
          × (a.body ≡ inr e))

  body-IsAnthropicCompletion :
      (a : Answer AnthropicResponse) (body : AnthropicResponse ⊎ String)
      → leb_ℤ (pos 400) a.status ≡ false
      → a.body ≡ body
      → IsAnthropicCompletion (answered a) (anthropic_body req (record a { body = body }))
  unfolding anthropic_body anthropic_response total_in
  body-IsAnthropicCompletion a (inl parsed) fine e =
      (a, parsed, refl, fine, e, text_content-joined parsed.content, refl, refl, refl)
  body-IsAnthropicCompletion a (inr s) fine e = inr (a, s, refl, fine, e)

  -- `Complete` gives a completion exactly from an answer whose status is below 400 and whose body can
  -- be read: its text blocks, the tokens with those of both caches, and their price for the
  -- requested model, where those read from the cache have the price of the cache. Any other status
  -- is reported as it is, with a type and a message that are not empty. A request that gets no
  -- answer and a body that cannot be read give an error without a status.
  pub anthropic_completion-IsAnthropicCompletion :
      (x : Exchange AnthropicResponse) → IsAnthropicCompletion x (anthropic_completion req x)
  unfolding anthropic_completion parse_anthropic_error
  anthropic_completion-IsAnthropicCompletion (unsent s) = inl refl
  anthropic_completion-IsAnthropicCompletion (answered a) =
      if-both (IsAnthropicCompletion (answered a)) (leb_ℤ (pos 400) a.status) _ _
        (λ refused. (
          a,
          refl,
          refused,
          (
            refl,
            or_text_filled a.envelope.kind "unknown_error" refl,
            or_text_filled a.envelope.message "unknown anthropic error" refl,
            refl,
          ),
        ))
        (λ fine. body-IsAnthropicCompletion a a.body fine refl)
