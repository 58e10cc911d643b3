-- ===== src/Proxy/Requests.antt =====
-- gateway/internal/proxy/types.go: the request of a client, and its conversion to one of a provider.
pub mod Split
use budget_governor.Prelude.{String, Bool, ◌&&◌, List, [], ◌∷◌, ◌++◌, str_eq, if◌then◌else◌}
use budget_governor.Prelude.Int.{ℤ}
use budget_governor.Provider.Types.{Message, Request}

pub record ClientMessage : Type 0 where
  pub role : String
  pub content : String

pub record ClientChatRequest (F : Type 0) : Type 0 where
  pub model : String
  pub messages : List ClientMessage
  pub max_tokens : ℤ
  pub temperature : F
  pub stream : Bool

abbrev pub normalized : ClientMessage → Message
normalized m = record { role = m.role; content = m.content }

-- The loop of `toProviderRequest`, with the variables `system` and `msgs`.
unfoldable pub split_system : String → List Message → List ClientMessage → String × List Message
split_system system msgs [] = (system, msgs)
split_system system msgs (m ∷ messages) =
    let takes = str_eq m.role "system" && str_eq system "" in
    split_system (if takes then m.content else system)
      (if takes then msgs else msgs ++ normalized m ∷ []) messages

unfoldable pub to_provider_request : {F : Type 0} → ClientChatRequest F → Request F
to_provider_request r =
    let (system, msgs) = split_system "" [] r.messages in
    record {
      model = r.model;
      messages = msgs;
      system = system;
      max_tokens = r.max_tokens;
      temperature = r.temperature;
      stream = r.stream;
      tenant_id = "";
      agent_id = "";
      task_id = "";
      trace_id = "";
    }
