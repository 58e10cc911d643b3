-- ===== src/Provider/OpenAi/Completed.antt =====
-- What each answer of OpenAI comes to.
use budget_governor.Prelude.{String, true, false, ◌⊎◌, inl, inr, List, [], ◌∷◌, ◌≡◌, refl, if-both}
use budget_governor.Prelude.Int.{pos, leb_ℤ}
use budget_governor.Prelude.Float.{Float}
use budget_governor.Provider.Http.{Answer, Exchange, unsent, answered, or_text_filled, IsReported}
use budget_governor.Provider.Pricing.{cost_usd}
use budget_governor.Provider.Types.{
  Request, provider_error, other_error, Completion, completed, failed,
}
use budget_governor.Provider.OpenAi.{
  OpenAiChatResponse, OpenAiChoice, parse_openai_error, openai_response, openai_body,
  openai_completion,
}

module _ {F : Type 0} ⦃d : Float F⦄ (req : Request F) where
  -- A status below 400 with a body that has a choice gives the first choice, and the reported tokens
  -- at the price of the requested model; one that has none gives an error without a status, as does
  -- a request that got no answer; and any other status is reported.
  abbrev pub IsOpenAiCompletion : Exchange OpenAiChatResponse → Completion F → Type 0
  IsOpenAiCompletion x (completed resp) =
      (a : Answer OpenAiChatResponse) × (parsed : OpenAiChatResponse) × (choice : OpenAiChoice)
      × (choices : List OpenAiChoice) × (x ≡ answered a)
      × (leb_ℤ (pos 400) a.status ≡ false)
      × (a.body ≡ inl parsed)
      × (parsed.choices ≡ choice ∷ choices)
      × (resp.content ≡ choice.content)
      × (resp.usage.tokens_in ≡ parsed.usage.prompt_tokens)
      × (resp.usage.tokens_out ≡ parsed.usage.completion_tokens)
      × (resp.cost_usd
          ≡ cost_usd req.model resp.usage.tokens_in parsed.usage.cached_tokens
              resp.usage.tokens_out)
  IsOpenAiCompletion x (failed (provider_error e)) =
      (a : Answer OpenAiChatResponse) × (x ≡ answered a)
      × (leb_ℤ (pos 400) a.status ≡ true)
      × IsReported a (provider_error e)
  IsOpenAiCompletion x (failed (other_error s)) =
      (x ≡ unsent s)
      ⊎ ((a : Answer OpenAiChatResponse) × (x ≡ answered a)
          × (leb_ℤ (pos 400) a.status ≡ false)
          × (((e : String) × (a.body ≡ inr e))
              ⊎ ((parsed : OpenAiChatResponse) × (a.body ≡ inl parsed) × (parsed.choices ≡ []))))

  module _ (a : Answer OpenAiChatResponse) (fine : leb_ℤ (pos 400) a.status ≡ false) where
    response-IsOpenAiCompletion :
        (parsed : OpenAiChatResponse) (choices : List OpenAiChoice)
        → a.body ≡ inl parsed
        → parsed.choices ≡ choices
        → IsOpenAiCompletion (answered a) (openai_response req parsed choices)
    unfolding openai_response
    response-IsOpenAiCompletion parsed [] e e' = inr (a, refl, fine, inr (parsed, e, e'))
    response-IsOpenAiCompletion parsed (choice ∷ choices) e e' =
        (a, parsed, choice, choices, refl, fine, e, e', refl, refl, refl, refl)

    body-IsOpenAiCompletion :
        (body : OpenAiChatResponse ⊎ String)
        → a.body ≡ body
        → IsOpenAiCompletion (answered a) (openai_body req (record a { body = body }))
    unfolding openai_body
    body-IsOpenAiCompletion (inl parsed) e =
        response-IsOpenAiCompletion parsed parsed.choices e refl
    body-IsOpenAiCompletion (inr s) e = inr (a, refl, fine, inl (s, e))

  -- `Complete` gives a completion exactly from an answer whose status is below 400 and whose body has
  -- a choice: the first choice, with the reported tokens at the price of the requested model. Any
  -- other status is reported as it is, with a type and a message that are not empty. A request that
  -- gets no answer, and a body that cannot be read or has no choice, give an error without a status.
  pub openai_completion-IsOpenAiCompletion :
      (x : Exchange OpenAiChatResponse) → IsOpenAiCompletion x (openai_completion req x)
  unfolding openai_completion parse_openai_error
  openai_completion-IsOpenAiCompletion (unsent s) = inl refl
  openai_completion-IsOpenAiCompletion (answered a) =
      if-both (IsOpenAiCompletion (answered a)) (leb_ℤ (pos 400) a.status) _ _
        (λ refused. (
          a,
          refl,
          refused,
          (
            refl,
            or_text_filled a.envelope.kind "unknown_error" refl,
            or_text_filled a.envelope.message "unknown openai error" refl,
            refl,
          ),
        ))
        (λ fine. body-IsOpenAiCompletion a fine a.body refl)
