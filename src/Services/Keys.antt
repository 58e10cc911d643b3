-- ===== src/Services/Keys.antt =====
-- controlplane/app: auth/keys.py, auth/dependencies.py and issue_api_key of api/tenants.py, on the table
-- api_keys, which the gateway reads too. bcrypt and str.strip are parameters.
pub mod Accepted
use Prim.Native.String
use text.Mathlib.Text.{starts_with}
use budget_governor.Prelude.{
  ℕ, zero, suc, String, Bool, true, false, ◌&&◌, ◌||◌, not, Option, none, some, List, [], ◌∷◌, ◌++◌,
  map, ltb, str_eq, if◌then◌else◌,
}
use budget_governor.Auth.Keys.{Answer, rows, KeyRecord}

pub record ApiKey : Type 0 where
  pub id : String
  pub tenant_id : String
  pub agent_id : Option String
  pub key_prefix : String
  pub hashed_key : String
  pub scopes : List String
  pub label : Option String
  pub revoked : Bool

-- The identifiers of the tenants, and the keys, oldest first.
pub record ControlPlane : Type 0 where
  pub tenants : List String
  pub api_keys : List ApiKey

-- `Identity`
pub record KeyOwner : Type 0 where
  pub tenant_id : String
  pub key_id : String
  pub scopes : List String
  pub agent_id : Option String

-- bcrypt.hashpw of a key and a salt, and bcrypt.checkpw, where `none` is a ValueError.
pub record Bcrypt : Type 0 where
  pub hashpw : String → String → String
  pub checkpw : String → String → Option Bool
  pub strip : String → String

infixr 65 ◌+ₛ◌
abbrev pub ◌+ₛ◌ : String → String → String
s +ₛ t = String.◌++◌ s t

-- `generate_api_key`, with the 32 random characters as an argument.
unfoldable pub generate_api_key : String → String
generate_api_key body = "bg_live" +ₛ "_" +ₛ body

-- s[:n], which counts characters
unfoldable pub take_characters : ℕ → String → String
take_characters zero s = ""
take_characters (suc n) String.[] = ""
take_characters (suc n) (String.◌∷◌ c s) = String.◌∷◌ c (take_characters n s)

-- len(s) < n
unfoldable pub is_shorter : ℕ → String → Bool
is_shorter zero s = false
is_shorter (suc n) String.[] = true
is_shorter (suc n) (String.◌∷◌ c s) = is_shorter n s

unfoldable pub key_prefix_of : String → String
key_prefix_of raw_key = take_characters 12 raw_key

-- The keys under a prefix that are not revoked, as both services select them.
unfoldable pub select_keys : String → List ApiKey → List ApiKey
select_keys prefix [] = []
select_keys prefix (k ∷ keys) =
    let rest = select_keys prefix keys in
    if str_eq k.key_prefix prefix && not k.revoked then k ∷ rest else rest

-- A row as the gateway reads it.
abbrev pub record_of : (List String → String) → ApiKey → KeyRecord
record_of dumps k = record {
  id = k.id;
  tenant_id = k.tenant_id;
  hashed_key = k.hashed_key;
  scopes = dumps k.scopes;
}

-- What the query of the gateway gives; `dumps` writes the JSON of the scopes.
unfoldable pub gateway_query : (List String → String) → List ApiKey → String → Answer
gateway_query dumps keys prefix =
    rows (map (λ (k : ApiKey). some (record_of dumps k)) (select_keys prefix keys))

-- Whether the list has the text.
unfoldable pub has_text : List String → String → Bool
has_text [] s = false
has_text (x ∷ texts) s = str_eq x s || has_text texts s

module _ (b : Bcrypt) where
  open b use {hashpw, checkpw, strip}

  abbrev pub is_match : Option Bool → Bool
  is_match none = false
  is_match (some r) = r

  unfoldable pub verify_key : String → String → Bool
  verify_key raw_key hashed_key = is_match (checkpw raw_key hashed_key)

  -- The loop over the rows; `none` is the error at its end.
  unfoldable pub find_owner : String → List ApiKey → Option KeyOwner
  find_owner raw_key [] = none
  find_owner raw_key (k ∷ keys) =
      let rest = find_owner raw_key keys in
      if verify_key raw_key k.hashed_key
      then some (record {
        tenant_id = k.tenant_id;
        key_id = k.id;
        scopes = k.scopes;
        agent_id = k.agent_id;
      })
      else rest

  unfoldable pub owner_of_key : List ApiKey → String → Option KeyOwner
  owner_of_key keys raw_key =
      if is_shorter 12 raw_key
      then none
      else find_owner raw_key (select_keys (key_prefix_of raw_key) keys)

  -- `get_current_identity`; `none` is the status 401.
  unfoldable pub get_current_identity : List ApiKey → Option String → Option KeyOwner
  get_current_identity keys none = none
  get_current_identity keys (some a) =
      if starts_with a "Bearer "
      then owner_of_key keys (strip (String.slice a 7 (String.len a)))
      else none

  -- Whether the request carries the platform token, where one is set.
  abbrev pub has_platform_token : Option String → Option String → Bool
  has_platform_token (some expected) (some token) =
      not (str_eq expected "") && str_eq token expected
  has_platform_token _ _ = false

  abbrev pub is_admin_of : String → Option KeyOwner → Bool
  is_admin_of tenant_id none = false
  is_admin_of tenant_id (some i) = str_eq i.tenant_id tenant_id && has_text i.scopes "admin"

  -- `_authorize_key_issuance`, with the expected token, the one of the request, and the header.
  unfoldable pub may_issue :
      List ApiKey → String → Option String → Option String → Option String → Bool
  may_issue keys tenant_id expected token authorization =
      has_platform_token expected token
      || is_admin_of tenant_id (get_current_identity keys authorization)

unfoldable pub are_valid : List String → Bool
are_valid [] = true
are_valid (s ∷ scopes) = has_text ("admin" ∷ "agent" ∷ "viewer" ∷ []) s && are_valid scopes

abbrev pub is_nonempty : List String → Bool
is_nonempty [] = false
is_nonempty (s ∷ scopes) = true

-- The request of `issue_api_key`, with the random parts of what it makes.
pub record Issue : Type 0 where
  pub tenant_id : String
  pub scopes : List String
  pub label : Option String
  pub expected : Option String
  pub token : Option String
  pub authorization : Option String
  pub body : String
  pub salt : String
  pub id : String

pub data Issued : Type 0 where
  tenant_not_found unauthenticated invalid_request : Issued
  issued : String → String → Issued

module _ (b : Bcrypt) where
  unfoldable pub new_key : Issue → ApiKey
  new_key r =
      let raw_key = generate_api_key r.body in
      record {
        id = r.id;
        tenant_id = r.tenant_id;
        agent_id = none;
        key_prefix = key_prefix_of raw_key;
        hashed_key = b.hashpw raw_key r.salt;
        scopes = r.scopes;
        label = r.label;
        revoked = false;
      }

  -- `issued` carries the identifier and the raw key.
  unfoldable pub issue_api_key : Issue → ControlPlane → Issued × ControlPlane
  issue_api_key r cp =
      if has_text cp.tenants r.tenant_id
      then (if may_issue b cp.api_keys r.tenant_id r.expected r.token r.authorization
          then (if are_valid r.scopes && is_nonempty r.scopes
              then (
                issued r.id (generate_api_key r.body),
                record cp { api_keys = cp.api_keys ++ new_key r ∷ [] },
              )
              else (invalid_request, cp))
          else (unauthenticated, cp))
      else (tenant_not_found, cp)
