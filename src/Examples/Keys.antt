-- ===== src/Examples/Keys.antt =====
-- A key for an agent, issued with the platform token, for controlplane/app and the gateway.
use text.Mathlib.TextPositions.{eq_refl}
use budget_governor.Prelude.{◌≡◌, refl, ap, String, true, none, some, List, [], ◌∷◌, str_eq}
use budget_governor.Auth.Keys.{Crypto, authenticate, success, new_store}
use budget_governor.Services.Advisor.{characters}
use budget_governor.Services.Keys.{
  ControlPlane, Bcrypt, ◌+ₛ◌, gateway_query, get_current_identity, Issue, issued, new_key,
  issue_api_key, may_issue, are_valid, has_text, generate_api_key, key_prefix_of, take_characters,
}
use budget_governor.Services.Keys.Accepted.{IsShared, IsPlain, issue_api_key-IsAccepted}

-- A hash that hides nothing.
abbrev bcrypt : Bcrypt
bcrypt = record {
  hashpw = λ raw salt. raw;
  checkpw = λ raw hashed. some (str_eq raw hashed);
  strip = λ s. s;
}

abbrev crypto : Crypto
crypto = record {
  cache_key = λ raw. raw;
  compare = λ hashed raw. str_eq raw hashed;
  parse_scopes = λ _. some ("agent" ∷ []);
}

abbrev dumps : List String → String
dumps scopes = "[\"agent\"]"

abbrev request : Issue
request = record {
  tenant_id = "acme";
  scopes = "agent" ∷ [];
  label = none;
  expected = some "secret";
  token = some "secret";
  authorization = none;
  body = "abcdefghijklmnopqrstuvwxyz012345";
  salt = "";
  id = "key_1";
}

abbrev key : String
key = "bg_live_abcdefghijklmnopqrstuvwxyz012345"

abbrev before : ControlPlane
before = record { tenants = "acme" ∷ []; api_keys = [] }

abbrev behind : ControlPlane
behind = record { tenants = "acme" ∷ []; api_keys = new_key bcrypt request ∷ [] }

issue_test : issue_api_key bcrypt request before ≡ (issued "key_1" key, behind)
unfolding issue_api_key may_issue are_valid has_text generate_api_key new_key key_prefix_of
    take_characters
issue_test = refl

shared : IsShared bcrypt crypto dumps ("agent" ∷ [])
shared = record {
  check_self = λ raw salt. ap some (eq_refl raw);
  agree = λ raw hashed. refl;
  read_back = refl;
}

plain : IsPlain key
unfolding characters
plain = record {
  front = "bg_live_abcd";
  back = "efghijklmnopqrstuvwxyz012345";
  split = refl;
  twelve_characters = refl;
  twelve_bytes = refl;
}

issue_api_key-IsAccepted_example :
    (may_issue bcrypt [] "acme" (some "secret") (some "secret") none ≡ true)
    × (are_valid ("agent" ∷ []) ≡ true)
    × ((authenticate crypto (gateway_query dumps behind.api_keys) 5 6 key (new_store 60)).0
        ≡ success (record { tenant_id = "acme"; key_id = "key_1"; scopes = "agent" ∷ [] }))
    × (get_current_identity bcrypt behind.api_keys (some ("Bearer " +ₛ key))
        ≡ some (record {
          tenant_id = "acme";
          key_id = "key_1";
          scopes = "agent" ∷ [];
          agent_id = none;
        }))
issue_api_key-IsAccepted_example =
    issue_api_key-IsAccepted bcrypt crypto dumps request shared before behind "key_1" key 5 6 60
      issue_test plain tt refl
