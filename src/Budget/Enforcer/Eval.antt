-- ===== src/Budget/Enforcer/Eval.antt =====
-- `Enforcer.eval`: how often EVALSHA with its fallback runs the script.
use budget_governor.Prelude.{
  ℕ, zero, suc, ◌≡◌, refl, sym, ◌⊎◌, inl, inr, true, false, some, String, List, arith, Option-cases,
  if-both,
}
use mathlib.Core.Path.{subst}
use budget_governor.Prelude.Float.{Float}
use budget_governor.Budget.Script.{Store, Redis, Reply, run}
use budget_governor.Budget.Enforcer.{
  Delivery, answered, lost_request, lost_answer, resent, is_once, Weather, System, Answer, reply,
  no_script, failed, repeat, convert, execute, send, evalsha, eval_source, load_script, eval_again,
  eval,
}

module _ {F : Type 0} ⦃d : Float F⦄ where
  -- One run of the script, whose answer came back.
  abbrev pub IsAnswered : System F → Reply F → Store F → Answer F × System F → Type 0
  IsAnswered y out s (a, y') = (a ≡ reply (convert out)) × (y'.store ≡ s) × (y'.runs ≡ suc y.runs)

  -- An error: the script ran once and its answer was lost, or it did not run at all.
  abbrev pub IsLost : System F → Store F → Answer F × System F → Type 0
  IsLost y s (a, y') =
      (a ≡ failed)
      × (((y'.store ≡ s) × (y'.runs ≡ suc y.runs)) ⊎ ((y'.store ≡ y.store) × (y'.runs ≡ y.runs)))

  module _ (r : Redis F) (w : Weather) (keys : List String) (argv : List F) where
    -- If the script raises no error on the arguments and no answer is lost and asked for again, then
    -- whatever commands or answers are lost, and whether or not the server still has the script, a
    -- call runs it at most once: an answer comes from exactly one run, and an error leaves the effect
    -- of one run or none.
    pub eval_at_most_once :
        (y : System F) (out : Reply F) (s : Store F)
        → is_once w.evalsha ≡ true
        → is_once w.eval ≡ true
        → run r w.sec w.usec keys argv y.store ≡ some (out, s)
        → IsAnswered y out s (eval r w keys argv y) ⊎ IsLost y s (eval r w keys argv y)
    unfolding eval eval_again send evalsha eval_source load_script execute
    eval_at_most_once y out s e1 e2 h = ground arith

    -- If the script raises no error on the arguments, and EVALSHA and EVAL are both answered,
    -- the caller gets the script's reply from one run, also after the server has lost its
    -- scripts and whatever becomes of loading the script again.
    pub eval_recovers :
        (y : System F) (out : Reply F) (s : Store F)
        → w.evalsha ≡ answered
        → w.eval ≡ answered
        → run r w.sec w.usec keys argv y.store ≡ some (out, s)
        → IsAnswered y out s (eval r w keys argv y)
    unfolding eval eval_again send evalsha eval_source load_script execute
    eval_recovers y out s e1 e2 h = ground arith

pub load_script-store :
    {F : Type 0} ⦃d : Float F⦄ (r : Redis F) (v : Delivery) (y : System F)
    → (load_script r v y).store ≡ y.store
unfolding load_script
load_script-store r answered y = refl
load_script-store r lost_request y = refl
load_script-store r lost_answer y = refl
load_script-store r (resent n true) y = refl
load_script-store r (resent n false) y = refl

module _ {F : Type 0} ⦃d : Float F⦄ (r : Redis F) (w : Weather) (keys : List String) (argv : List F)
    (P : Store F → Type 0)
    (kept : (s s' : Store F) (out : Reply F)
      → P s
      → run r w.sec w.usec keys argv s ≡ some (out, s')
      → P s') where
  abbrev IsKeeping : (System F → Answer F × System F) → Type 0
  IsKeeping command = (y : System F) → P y.store → P (command y).1.store

  execute-IsKeeping : IsKeeping (execute r w keys argv)
  unfolding execute
  execute-IsKeeping y p = elim (Option-cases (run r w.sec w.usec keys argv y.store)) [
    | inl e ↦ rw (e, execute) p
    | inr ((out, s), e) ↦ rw (e, execute) (kept y.store s out p e)
  ]

  repeat-IsKeeping :
      (command : System F → Answer F × System F) (n : ℕ) (y : System F)
      → IsKeeping command
      → P y.store
      → P (repeat n (λ z. (command z).1) y).store
  unfolding repeat
  repeat-IsKeeping command zero y h p = p
  repeat-IsKeeping command (suc n) y h p = repeat-IsKeeping command n (command y).1 h (h y p)

  send-IsKeeping :
      (v : Delivery) (command : System F → Answer F × System F)
      → IsKeeping command
      → IsKeeping (send r v command)
  unfolding send
  send-IsKeeping answered command h y p = h y p
  send-IsKeeping lost_request command h y p = p
  send-IsKeeping lost_answer command h y p = h y p
  send-IsKeeping (resent n ok) command h y p =
      let last = h _ (repeat-IsKeeping command (suc n) y h p) in
      if-both (λ (x : Answer F × System F). P x.1.store) ok _ _ (λ _. last) (λ _. last)

  evalsha-IsKeeping : IsKeeping (evalsha r w keys argv)
  unfolding evalsha
  evalsha-IsKeeping y p =
      let ran = execute-IsKeeping y p in
      if-both (λ (x : Answer F × System F). P x.1.store) y.cached _ _ (λ _. ran) (λ _. p)

  reloaded :
      (a : Answer F) (y : System F)
      → P y.store
      → let out : Answer F × System F = elim a [
        | reply vs ↦ (reply vs, load_script r w.load y)
        | _ ↦ (failed, y)
      ] in
        P out.1.store
  reloaded (reply vs) y p = subst P (sym (load_script-store r w.load y)) p
  reloaded no_script y p = p
  reloaded failed y p = p

  eval_again-IsKeeping : IsKeeping (eval_again r w keys argv)
  unfolding eval_again eval_source
  eval_again-IsKeeping y p =
      let (a, y') = send r w.eval (eval_source r w keys argv) y in
      reloaded a y' (
        send-IsKeeping w.eval (eval_source r w keys argv)
          (λ z. execute-IsKeeping (record z { cached = true })) y p)

  chosen :
      (a : Answer F) (y : System F)
      → P y.store
      → let out : Answer F × System F = elim a [
        | reply vs ↦ (reply vs, y)
        | no_script ↦ eval_again r w keys argv y
        | failed ↦ (failed, y)
      ] in
        P out.1.store
  chosen (reply vs) y p = p
  chosen no_script y p = eval_again-IsKeeping y p
  chosen failed y p = p

  -- What every run of the script keeps, a call keeps, however often its commands are sent.
  pub eval-IsKeeping : (y : System F) → P y.store → P (eval r w keys argv y).1.store
  unfolding eval
  eval-IsKeeping y p =
      let (a, y') = send r w.evalsha (evalsha r w keys argv) y in
      let known = chosen a y' (send-IsKeeping w.evalsha _ evalsha-IsKeeping y p) in
      let again = eval_again-IsKeeping y p in
      if-both (λ (x : Answer F × System F). P x.1.store) y.sha_set _ _ (λ _. known) (λ _. again)
