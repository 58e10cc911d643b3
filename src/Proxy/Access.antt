-- ===== src/Proxy/Access.antt =====
-- `authMiddleware` of gateway/internal/proxy/handler.go.
pub mod Vouched
use Prim.Native.String.{len, slice}
use text.Mathlib.Text.{starts_with}
use budget_governor.Prelude.{ℕ, String, Bool, false, ◌||◌, List, [], ◌∷◌, str_eq, if◌then◌else◌}
use budget_governor.Auth.Keys.{
  Identity, has_scope, Answer, Result, failure, success, Store, Crypto, authenticate,
}

-- The text of an error with status 401 or 403, or the identity with which the handler goes on.
pub data Access : Type 0 where
  unauthorized forbidden : String → Access
  passed : Identity → Access

-- The loop over the allowed scopes.
unfoldable pub has_any_scope : Identity → List String → Bool
has_any_scope i [] = false
has_any_scope i (s ∷ allowed) = has_scope i.scopes s || has_any_scope i allowed

-- strings.TrimPrefix, where the prefix is there
unfoldable pub trim_bearer : String → String
trim_bearer header = slice header 7 (len header)

unfoldable pub check_scopes : List String → Result → Access
check_scopes allowed (failure e) = unauthorized "invalid api key"
check_scopes allowed (success i) =
    if has_any_scope i allowed then passed i else forbidden "api key lacks required scope"

unfoldable pub auth_middleware :
    Crypto → (String → Answer) → ℕ → ℕ → List String → String → Store → Access × Store
auth_middleware c query now later allowed header s =
    let (out, s') = authenticate c query now later (trim_bearer header) s in
    if starts_with header "Bearer "
    then (if str_eq (trim_bearer header) ""
        then (unauthorized "missing or malformed Authorization header", s)
        else (check_scopes allowed out, s'))
    else (unauthorized "missing or malformed Authorization header", s)

-- The scopes that `RegisterRoutes` asks for.
abbrev pub route_scopes : List String
route_scopes = "agent" ∷ "admin" ∷ []
