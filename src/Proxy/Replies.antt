-- ===== src/Proxy/Replies.antt =====
-- The replies of gateway/internal/proxy/types.go.
use budget_governor.Prelude.{String, List, [], ◌∷◌}
use budget_governor.Prelude.Int.{ℤ, pos, ◌+ℤ◌, int64}
use budget_governor.Prelude.Float.{Float, nought}
use budget_governor.Provider.Types.{Response}
use budget_governor.Proxy.Requests.{ClientMessage}

pub record ClientChatChoice : Type 0 where
  pub index : ℤ
  pub message : ClientMessage
  pub finish_reason : String

pub record ClientChatUsage : Type 0 where
  pub prompt_tokens : ℤ
  pub completion_tokens : ℤ
  pub total_tokens : ℤ

pub record ClientChatResponse (F : Type 0) : Type 0 where
  pub id : String
  pub object : String
  pub model : String
  pub choices : List ClientChatChoice
  pub usage : ClientChatUsage
  pub budget_advisory : String
  pub cost_usd : F

pub record ErrorResponse (F : Type 0) : Type 0 where
  pub message : String
  pub reason : String
  pub remaining_tokens : F
  pub remaining_usd : F
  pub advice : String

module _ {F : Type 0} where
  -- `out` of `doDispatch`; without advice the field stays empty.
  unfoldable pub chat_response : Response F → String → ClientChatResponse F
  chat_response resp advice = record {
    id = resp.id;
    object = "chat.completion";
    model = resp.model;
    choices =
        record {
          index = pos 0;
          message = record { role = "assistant"; content = resp.content };
          finish_reason = resp.finish_reason;
        }
        ∷ [];
    usage = record {
      prompt_tokens = resp.usage.tokens_in;
      completion_tokens = resp.usage.tokens_out;
      total_tokens = int64 (resp.usage.tokens_in +ℤ resp.usage.tokens_out);
    };
    budget_advisory = advice;
    cost_usd = resp.cost_usd;
  }

  -- `ErrorResponse{}.withMessage`
  unfoldable pub with_message : ⦃d : Float F⦄ → String → String → ErrorResponse F
  with_message message reason = record {
    message = message;
    reason = reason;
    remaining_tokens = nought;
    remaining_usd = nought;
    advice = "";
  }
