-- ===== src/Provider/OpenAi/Sent.antt =====
-- The messages of a client come to OpenAI as they were.
use mathlib.Core.Path.{subst}
use mathlib.Core.Bool.{false≢true}
use budget_governor.Prelude.{
  String, true, inl, inr, List, [], ◌∷◌, ◌++◌, map, ◌≡◌, refl, sym, ap, ◌∙◌, All, All-middle,
  eq_iff, str_eq,
}
use budget_governor.Prelude.Float.{Float}
use budget_governor.Provider.Types.{Message}
use budget_governor.Provider.OpenAi.{openai_messages, to_openai_request}
use budget_governor.Proxy.Requests.{
  ClientMessage, ClientChatRequest, normalized, to_provider_request,
}
use budget_governor.Proxy.Requests.Split.{IsFilled, IsOther, IsSplit, to_provider_request-IsSplit}

abbrev tail_of : {A : Type 0} → List A → List A
tail_of [] = []
tail_of (x ∷ xs) = xs

abbrev head_or : {A : Type 0} → A → List A → A
head_or y [] = y
head_or y (x ∷ xs) = x

first_message :
    (m : ClientMessage) (rest : List Message)
    → IsFilled m
    → str_eq m.role "system" ≡ true
    → openai_messages m.content rest ≡ normalized m ∷ rest
unfolding openai_messages
first_message m rest filled role = rw filled (
    ap (λ r. record { role = r; content = m.content } ∷ rest)
      (sym ((eq_iff m.role "system").0 role)))

openai_messages-IsSplit :
    (m : ClientMessage) (rest : List ClientMessage) (system : String) (out : List Message)
    → IsFilled m
    → All IsOther rest
    → IsSplit [] (m ∷ rest) (system, out)
    → openai_messages system out ≡ map normalized (m ∷ rest)
unfolding openai_messages
openai_messages-IsSplit m rest system out filled others (inl (_, none_yet, e)) =
    rw (none_yet, e) refl
openai_messages-IsSplit m rest system out filled others
      (inr ([], x, after, split, _, role, text, e)) =
    let same : x ≡ m = sym (ap (head_or m) split) in
    let behind : rest ≡ after = ap tail_of split in
    let first = first_message m (map normalized rest) filled (rw same at role) in
    cc (first, text, e, same, behind)
openai_messages-IsSplit m rest system out filled others
      (inr (b ∷ before, x, after, split, _, role, text, e)) =
    let behind : rest ≡ before ++ x ∷ after = ap tail_of split in
    absurd (
      false≢true
        (sym (All-middle IsOther before x after (subst (All IsOther) behind others)) ∙ role))

-- If no message of a client is empty and none but the first has the role "system", then splitting the
-- system text off for the gateway's own request and putting it back for OpenAI gives the client's
-- messages, in order.
pub openai_messages-to_provider_request :
    {F : Type 0} ⦃d : Float F⦄ (r : ClientChatRequest F) (m : ClientMessage)
    (rest : List ClientMessage)
    → r.messages ≡ m ∷ rest
    → All IsFilled (m ∷ rest)
    → All IsOther rest
    → (to_openai_request (to_provider_request r)).messages ≡ map normalized r.messages
unfolding to_openai_request
openai_messages-to_provider_request r m rest e filled others =
    let out = to_provider_request r in
    let split = to_provider_request-IsSplit r (subst (All IsFilled) (sym e) filled) in
    openai_messages-IsSplit m rest out.system out.messages filled.0 others
      (subst (λ l. IsSplit [] l (out.system, out.messages)) e split)
    ∙ ap (map normalized) (sym e)
