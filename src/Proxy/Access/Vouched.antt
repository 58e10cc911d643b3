-- ===== src/Proxy/Access/Vouched.antt =====
-- Who gets past the middleware.
use text.Mathlib.Text.{starts_with}
use budget_governor.Prelude.{
  ℕ, ◌<◌, String, true, false, List, ◌≡◌, ◌⊎◌, arith, str_eq, Bool-cases, inl, inr,
}
use budget_governor.Auth.Keys.{Identity, Answer, Result, failure, success, Crypto, Event, after}
use budget_governor.Auth.Keys.Vouched.{IsVouched, IsBacked, authenticate-IsVouched}
use budget_governor.Proxy.Access.{
  unauthorized, passed, has_any_scope, trim_bearer, check_scopes, auth_middleware,
}

-- The key was verified for this identity, now or less than `ttl` ago.
abbrev pub IsKnown : Crypto → ℕ → List Event → (String → Answer) → ℕ → String → Identity → Type 0
IsKnown c ttl events query now raw i =
    IsVouched c query raw i
    ⊎ ((expires_at : ℕ) × (now < expires_at) × IsBacked c ttl events (c.cache_key raw) i expires_at)

unauthorized-ne-passed : (message : String) (i : Identity) → unauthorized message ≡ passed i → ⊥
unauthorized-ne-passed message i h = ground arith

check_scopes-passed :
    (allowed : List String) (out : Result) (i : Identity)
    → check_scopes allowed out ≡ passed i
    → (out ≡ success i) × (has_any_scope i allowed ≡ true)
unfolding check_scopes
check_scopes-passed allowed (failure e) i h = ground arith
check_scopes-passed allowed (success j) i h = ground arith

-- After any authentications and evictions, the middleware lets an identity pass only if the header
-- is "Bearer " and a key that is not empty, the key was verified against a row of the database, just
-- now or by an earlier authentication of a key with the same SHA-256 less than `ttl` ago, and the
-- identity has one of the allowed scopes.
pub auth_middleware-IsKnown :
    (c : Crypto) (ttl : ℕ) (events : List Event) (query : String → Answer) (now later : ℕ)
    (allowed : List String) (header : String) (i : Identity)
    → (auth_middleware c query now later allowed header (after c ttl events)).0 ≡ passed i
    → (starts_with header "Bearer " ≡ true)
      × (str_eq (trim_bearer header) "" ≡ false)
      × IsKnown c ttl events query now (trim_bearer header) i
      × (has_any_scope i allowed ≡ true)
unfolding auth_middleware
auth_middleware-IsKnown c ttl events query now later allowed header i h =
    let key = trim_bearer header in
    elim (Bool-cases (starts_with header "Bearer ")) [
      | inr bad ↦ absurd (unauthorized-ne-passed _ i (rw bad at h))
      | inl good ↦ elim (Bool-cases (str_eq key "")) [
        | inl empty ↦ absurd (unauthorized-ne-passed _ i (rw (good, empty) at h))
        | inr filled ↦
            let (e, scoped) = check_scopes-passed allowed _ i (rw (good, filled) at h) in
            (good, filled, authenticate-IsVouched c ttl events query now later key i e, scoped)
      ]
    ]
