-- ===== src/Examples/Access.antt =====
-- A key that is still served from the cache while the database is down, for gateway/internal/auth.
use text.Mathlib.Text.{starts_with}
use budget_governor.Prelude.{
  ℕ, ◌<◌, ◌≡◌, refl, ◌⊎◌, some, true, false, String, List, [], ◌∷◌, str_eq,
}
use budget_governor.Auth.Keys.{
  Identity, Answer, query_failed, rows, success, Crypto, Event, authenticated, authenticate, after,
  apply, lookup, lookup_and_verify, verify, new_store, has_scope,
}
use budget_governor.Auth.Keys.Vouched.{IsVouched, IsBacked, authenticate-IsVouched}
use budget_governor.Proxy.Access.{
  passed, route_scopes, auth_middleware, trim_bearer, check_scopes, has_any_scope,
}
use budget_governor.Proxy.Access.Vouched.{IsKnown, auth_middleware-IsKnown}

abbrev crypto : Crypto
crypto = record {
  cache_key = λ raw. raw;
  compare = λ hash raw. str_eq hash raw;
  parse_scopes = λ s. some (s ∷ []);
}

abbrev key : String
key = "bg_live_0001_secret"

abbrev known : String → Answer
known prefix =
    rows (some (record { id = "k1"; tenant_id = "acme"; hashed_key = key; scopes = "agent" }) ∷ [])

abbrev down : String → Answer
down prefix = query_failed

abbrev events : List Event
events = authenticated known 10 12 key ∷ []

abbrev writer : Identity
writer = record { tenant_id = "acme"; key_id = "k1"; scopes = "agent" ∷ [] }

served : (authenticate crypto down 50 50 key (after crypto 60 events)).0 ≡ success writer
unfolding authenticate after apply lookup lookup_and_verify verify new_store
served = refl

authenticate-IsVouched_example :
    IsVouched crypto down key writer
    ⊎ ((expires_at : ℕ) × (50 < expires_at) × IsBacked crypto 60 events key writer expires_at)
authenticate-IsVouched_example =
    authenticate-IsVouched crypto 60 events down 50 50 key writer served

let_in :
    (auth_middleware crypto down 50 50 route_scopes "Bearer bg_live_0001_secret"
      (after crypto 60 events)).0
    ≡ passed writer
unfolding auth_middleware trim_bearer check_scopes has_any_scope has_scope authenticate after apply
    lookup lookup_and_verify verify new_store
let_in = refl

auth_middleware-IsKnown_example :
    (starts_with "Bearer bg_live_0001_secret" "Bearer " ≡ true)
    × (str_eq (trim_bearer "Bearer bg_live_0001_secret") "" ≡ false)
    × IsKnown crypto 60 events down 50 (trim_bearer "Bearer bg_live_0001_secret") writer
    × (has_any_scope writer route_scopes ≡ true)
auth_middleware-IsKnown_example =
    auth_middleware-IsKnown crypto 60 events down 50 50 route_scopes "Bearer bg_live_0001_secret"
      writer let_in
