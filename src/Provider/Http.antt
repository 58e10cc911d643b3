-- ===== src/Provider/Http.antt =====
-- What the adapters of gateway/internal/provider get from Go's HTTP client and its JSON reader.
use budget_governor.Prelude.{
  String, Option, none, some, List, ◌⊎◌, inl, inr, ◌≡◌, refl, false, str_eq, Bool-cases,
  if◌then◌else◌,
}
use budget_governor.Prelude.Int.{ℤ, pos}
use budget_governor.Provider.Types.{Failure, provider_error, other_error}

-- The type and the message in the error envelope of a body, empty where they are missing.
pub record Envelope : Type 0 where
  pub kind : String
  pub message : String

-- An answer with its body read as a B, or the text of the decoder's error; `retry_after` is the
-- header of that name, if it is a number. `lines` are those that the scanner of a stream gives, and
-- `scan_error` its error.
pub record Answer (B : Type 0) : Type 0 where
  pub status : ℤ
  pub retry_after : Option ℤ
  pub envelope : Envelope
  pub body : B ⊎ String
  pub lines : List String
  pub scan_error : Option String

-- What `do` gives: the text of an error, or an answer.
pub data Exchange (B : Type 0) : Type 0 where
  unsent : String → Exchange B
  answered : Answer B → Exchange B

abbrev pub or_text : String → String → String
or_text s t = if str_eq s "" then t else s

abbrev pub or_zero : Option ℤ → ℤ
or_zero none = pos 0
or_zero (some n) = n

abbrev pub scanner_failure : Option String → Option Failure
scanner_failure none = none
scanner_failure (some s) = some (other_error s)

module _ {W : Type 0} where
  -- The rest of a loop behind a call of `Write`.
  abbrev pub unless_failed : (W → Option Failure × W) → Option Failure × W → Option Failure × W
  unless_failed rest (none, w) = rest w
  unless_failed rest (some e, w) = (some e, w)

-- A text with a default is never empty.
pub or_text_filled : (s t : String) → str_eq t "" ≡ false → str_eq (or_text s t) "" ≡ false
or_text_filled s t h = elim (Bool-cases (str_eq s "")) [ inl e ↦ rw e h | inr e ↦ rw (e, e) refl ]

-- The error tells the status of the answer, and has a type and a message.
abbrev pub IsReported : {B : Type 0} → Answer B → Failure → Type 0
IsReported a (provider_error e) =
    (e.status_code ≡ a.status)
    × (str_eq e.kind "" ≡ false)
    × (str_eq e.message "" ≡ false)
    × (e.retry_after ≡ or_zero a.retry_after)
IsReported a (other_error s) = ⊥
