-- ===== src/Proxy/Requests/Split.antt =====
-- The first system message becomes the system text, and all others stay in order.
use mathlib.Core.Path.{subst}
use mathlib.Core.List.{append_assoc, append-nil}
use budget_governor.Prelude.{
  String, true, false, ◌&&◌, List, [], ◌∷◌, ◌++◌, map, ◌≡◌, refl, sym, ◌∙◌, ap, ◌⊎◌, inl, inr,
  arith, All, str_eq, Bool-cases,
}
use budget_governor.Provider.Types.{Message}
use budget_governor.Proxy.Requests.{
  ClientMessage, ClientChatRequest, normalized, split_system, to_provider_request,
}

-- The text is not empty, as the binding of the request asks for.
abbrev pub IsFilled : ClientMessage → Type 0
IsFilled m = str_eq m.content "" ≡ false

abbrev pub IsOther : ClientMessage → Type 0
IsOther m = str_eq m.role "system" ≡ false

passed_on :
    (system : String) (msgs : List Message) (m : ClientMessage) (messages : List ClientMessage)
    → (str_eq m.role "system" && str_eq system "") ≡ false
    → split_system system msgs (m ∷ messages)
      ≡ split_system system (msgs ++ normalized m ∷ []) messages
unfolding split_system
passed_on system msgs m messages h = rw h

taken :
    (msgs : List Message) (m : ClientMessage) (messages : List ClientMessage)
    → str_eq m.role "system" ≡ true
    → split_system "" msgs (m ∷ messages) ≡ split_system m.content msgs messages
unfolding split_system
taken msgs m messages h = rw h

-- Once there is a system text, every message is passed on.
split_system_rest :
    (system : String) (msgs : List Message) (messages : List ClientMessage)
    → str_eq system "" ≡ false
    → split_system system msgs messages ≡ (system, msgs ++ map normalized messages)
unfolding split_system
split_system_rest system msgs [] h = ap (λ x. (system, x)) (sym (append-nil msgs))
split_system_rest system msgs (m ∷ messages) h =
    passed_on system msgs m messages (ground arith)
    ∙ split_system_rest system (msgs ++ normalized m ∷ []) messages h
    ∙ ap (λ x. (system, x)) (append_assoc msgs (normalized m ∷ []) (map normalized messages))

-- The system text and the messages of a split, from what came before.
abbrev pub IsSplit : List Message → List ClientMessage → String × List Message → Type 0
IsSplit msgs messages (system, out) =
    (All IsOther messages × (system ≡ "") × (out ≡ msgs ++ map normalized messages))
    ⊎ ((before : List ClientMessage) × (m : ClientMessage) × (after : List ClientMessage)
        × (messages ≡ before ++ m ∷ after)
        × All IsOther before
        × (str_eq m.role "system" ≡ true)
        × (system ≡ m.content)
        × (out ≡ msgs ++ map normalized (before ++ after)))

IsSplit-cons :
    (msgs : List Message) (m : ClientMessage) (messages : List ClientMessage)
    (result : String × List Message)
    → IsOther m
    → IsSplit (msgs ++ normalized m ∷ []) messages result
    → IsSplit msgs (m ∷ messages) result
IsSplit-cons msgs m messages result e (inl (others, none_yet, out)) =
    inl
      ((e, others), none_yet, out ∙ append_assoc msgs (normalized m ∷ []) (map normalized messages))
IsSplit-cons msgs m messages result e (inr (before, x, after, split, others, role, text, out)) =
    inr (
      m ∷ before,
      x,
      after,
      ap (◌∷◌ m) split,
      (e, others),
      role,
      text,
      out ∙ append_assoc msgs (normalized m ∷ []) (map normalized (before ++ after)),
    )

split_system-IsSplit :
    (msgs : List Message) (messages : List ClientMessage)
    → All IsFilled messages
    → IsSplit msgs messages (split_system "" msgs messages)
unfolding split_system
split_system-IsSplit msgs [] h = inl (tt, refl, sym (append-nil msgs))
split_system-IsSplit msgs (m ∷ messages) (filled, h) = elim (Bool-cases (str_eq m.role "system")) [
  | inl e ↦
      subst (IsSplit msgs (m ∷ messages))
        (sym (taken msgs m messages e ∙ split_system_rest m.content msgs messages filled))
        (inr ([], m, messages, refl, tt, e, refl, refl))
  | inr e ↦ subst (IsSplit msgs (m ∷ messages)) (sym (passed_on "" msgs m messages (rw e))) (
      IsSplit-cons msgs m messages _ e
        (split_system-IsSplit (msgs ++ normalized m ∷ []) messages h))
]

-- If no message of a client is empty, either none has the role "system", and all are passed on with
-- an empty system text; or the first that has it becomes the system text, and all others are passed
-- on in order, later system messages among them.
pub to_provider_request-IsSplit :
    {F : Type 0} (r : ClientChatRequest F)
    → All IsFilled r.messages
    → let out = to_provider_request r in IsSplit [] r.messages (out.system, out.messages)
unfolding to_provider_request
to_provider_request-IsSplit r h = split_system-IsSplit [] r.messages h
