-- ===== src/Auth/Keys.antt =====
-- gateway/internal/auth/auth.go. Times are numbers of nanoseconds.
pub mod Vouched
use Prim.Native.String.{len, slice}
use budget_governor.Prelude.{
  ℕ, ◌+◌, String, Bool, Option, none, some, List, [], ◌∷◌, ltb, str_eq, if◌then◌else◌, ◌||◌, false,
}

-- The scopes are those of the map that are true.
pub record Identity : Type 0 where
  pub tenant_id : String
  pub key_id : String
  pub scopes : List String

unfoldable pub has_scope : List String → String → Bool
has_scope [] s = false
has_scope (x ∷ scopes) s = str_eq x s || has_scope scopes s

-- A row of `api_keys` that is not revoked; `scopes` is the JSON text.
pub record KeyRecord : Type 0 where
  pub id : String
  pub tenant_id : String
  pub hashed_key : String
  pub scopes : String

-- What the query for a prefix gives: an error, or rows, of which `none` cannot be scanned.
pub data Answer : Type 0 where
  query_failed : Answer
  rows : List (Option KeyRecord) → Answer

pub data AuthError : Type 0 where
  key_not_found key_invalid database_error bad_scopes : AuthError

pub data Result : Type 0 where
  failure : AuthError → Result
  success : Identity → Result

pub record CacheEntry : Type 0 where
  pub identity : Identity
  pub expires_at : ℕ

-- The map `cache`; the entry that was put last stands first.
abbrev pub Cache : Type 0
Cache = List (String × CacheEntry)

pub record Store : Type 0 where
  pub ttl : ℕ
  pub cache : Cache

-- The libraries: the hex text of SHA-256, the comparison of bcrypt, and the reading of a JSON array.
pub record Crypto : Type 0 where
  pub cache_key : String → String
  pub compare : String → String → Bool
  pub parse_scopes : String → Option (List String)

unfoldable pub new_store : ℕ → Store
new_store ttl = record { ttl = ttl; cache = [] }

unfoldable pub lookup : String → Cache → Option CacheEntry
lookup key [] = none
lookup key ((k, e) ∷ cache) = if str_eq k key then some e else lookup key cache

-- `evictExpired`
unfoldable pub evict : ℕ → Cache → Cache
evict now [] = []
evict now ((k, e) ∷ cache) =
    let rest = evict now cache in if ltb e.expires_at now then rest else (k, e) ∷ rest

module _ (c : Crypto) where
  open c use {cache_key, compare, parse_scopes}

  abbrev pub identify : KeyRecord → Option (List String) → Result
  identify r none = failure bad_scopes
  identify r (some scopes) =
      success (record { tenant_id = r.tenant_id; key_id = r.id; scopes = scopes })

  -- The loop over the rows.
  unfoldable pub verify : String → List (Option KeyRecord) → Result
  verify raw [] = failure key_not_found
  verify raw (none ∷ records) = failure database_error
  verify raw (some r ∷ records) =
      if compare r.hashed_key raw then identify r (parse_scopes r.scopes) else verify raw records

  abbrev pub verify_answer : String → Answer → Result
  verify_answer raw query_failed = failure database_error
  verify_answer raw (rows records) = verify raw records

  -- The query is given as a function of the prefix.
  unfoldable pub lookup_and_verify : (String → Answer) → String → Result
  lookup_and_verify query raw =
      if ltb (len raw) 12 then failure key_invalid else verify_answer raw (query (slice raw 0 12))

  abbrev pub remember : String → ℕ → Result → Store → Result × Store
  remember key now (failure e) s = (failure e, s)
  remember key now (success i) s = (
    success i,
    record s { cache = (key, record { identity = i; expires_at = now + s.ttl }) ∷ s.cache },
  )

  abbrev pub or_verify : Option CacheEntry → ℕ → (Result × Store) → Store → Result × Store
  or_verify none now verified s = verified
  or_verify (some e) now verified s =
      if ltb now e.expires_at then (success e.identity, s) else verified

  -- `now` is the time at the look into the cache, `later` the time at which the entry is made.
  unfoldable pub authenticate : (String → Answer) → ℕ → ℕ → String → Store → Result × Store
  authenticate query now later raw s =
      or_verify (lookup (cache_key raw) s.cache) now
        (remember (cache_key raw) later (lookup_and_verify query raw) s) s

-- What happens to the store.
pub data Event : Type 0 where
  authenticated : (String → Answer) → ℕ → ℕ → String → Event
  evicted : ℕ → Event

unfoldable pub apply : Crypto → Event → Store → Store
apply c (authenticated query now later raw) s = (authenticate c query now later raw s).1
apply c (evicted now) s = record s { cache = evict now s.cache }

-- The store after the events, the latest of which stands first.
unfoldable pub after : Crypto → ℕ → List Event → Store
after c ttl [] = new_store ttl
after c ttl (e ∷ events) = apply c e (after c ttl events)
