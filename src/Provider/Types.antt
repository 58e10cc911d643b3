-- ===== src/Provider/Types.antt =====
-- gateway/internal/provider/types.go. The time that a call takes is left out of `Response`.
use Prim.Native.String
use budget_governor.Prelude.{String, Bool, Option, List}
use budget_governor.Prelude.Int.{ℤ}

pub record Message : Type 0 where
  pub role : String
  pub content : String

pub record Request (F : Type 0) : Type 0 where
  pub model : String
  pub messages : List Message
  pub system : String
  pub max_tokens : ℤ
  pub temperature : F
  pub stream : Bool
  pub tenant_id : String
  pub agent_id : String
  pub task_id : String
  pub trace_id : String

pub record Usage : Type 0 where
  pub tokens_in : ℤ
  pub tokens_out : ℤ

pub record Response (F : Type 0) : Type 0 where
  pub id : String
  pub model : String
  pub content : String
  pub finish_reason : String
  pub usage : Usage
  pub cost_usd : F

pub record StreamChunk : Type 0 where
  pub delta_content : String
  pub done : Bool
  pub finish_reason : String
  pub usage : Usage

pub record ProviderError : Type 0 where
  pub status_code : ℤ
  pub kind : String
  pub message : String
  pub retry_after : ℤ

-- An `error`: a `ProviderError`, or another one with its text.
pub data Failure : Type 0 where
  provider_error : ProviderError → Failure
  other_error : String → Failure

-- `ProviderError.Error` for the one, its own text for the other.
unfoldable pub error_text : Failure → String
error_text (provider_error e) = String.◌++◌ e.kind (String.◌++◌ ": " e.message)
error_text (other_error s) = s

-- What `Complete` gives.
pub data Completion (F : Type 0) : Type 0 where
  completed : Response F → Completion F
  failed : Failure → Completion F

-- A `StreamWriter` whose state is a W; `none` is no error.
abbrev pub Writer : Type 0 → Type 0
Writer W = StreamChunk → W → Option Failure × W

pub record Provider (F : Type 0) : Type 1 where
  pub name : String
  pub complete : Request F → Completion F
  pub stream : {W : Type 0} → Writer W → Request F → W → Option Failure × W
