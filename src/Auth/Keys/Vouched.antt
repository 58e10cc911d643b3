-- ===== src/Auth/Keys/Vouched.antt =====
-- Each identity that is given out was verified against the database, and not too long ago.
use mathlib.Core.Path.{subst}
use mathlib.Core.Option.{some-injective}
use Prim.Native.String.{len, slice}
use budget_governor.Prelude.{
  ℕ, ◌+◌, ◌<◌, String, true, Option, none, some, List, [], ◌∷◌, ◌≡◌, refl, ◌∙◌, ap, ◌⊎◌, inl, inr,
  All, ltb, ltb→lt, str_eq, eq_iff, Bool-cases, Option-cases,
}
use budget_governor.Provider.Pricing.Cheaper.{none-ne-some}
use budget_governor.Auth.Keys.{
  Identity, KeyRecord, Answer, query_failed, rows, Result, failure, success, CacheEntry, Cache,
  Store, Crypto, lookup, evict, verify, lookup_and_verify, authenticate, Event, authenticated,
  evicted, apply, after, AuthError, verify_answer, remember, or_verify, new_store,
}

abbrev pub IsMember : {A : Type 0} → A → List A → Type 0
IsMember x [] = ⊥
IsMember x (y ∷ ys) = (y ≡ x) ⊎ IsMember x ys

failure-ne-success : (e : AuthError) (i : Identity) → failure e ≡ success i → ⊥
failure-ne-success e i h = cc

identity_of : Identity → Result → Identity
identity_of i (failure e) = i
identity_of i (success j) = j

success_injective : (i j : Identity) → success i ≡ success j → i ≡ j
unfolding identity_of
success_injective i j h = ap (identity_of i) h

-- The entry that is found is one of the cache, under an equal key.
lookup-All {κ} :
    (P : String × CacheEntry → Type κ) (key : String) (cache : Cache) (e : CacheEntry)
    → lookup key cache ≡ some e
    → All P cache
    → (k : String) × (k ≡ key) × P (k, e)
unfolding lookup
lookup-All P key [] e h all = absurd (none-ne-some h)
lookup-All P key ((k, x) ∷ cache) e h (p, rest) = elim (Bool-cases (str_eq k key)) [
  | inl same ↦
      (k, (eq_iff k key).0 same, subst (λ y. P (k, y)) (some-injective _ _ (rw same at h)) p)
  | inr other ↦ lookup-All P key cache e (rw other at h) rest
]

evict-All {κ} :
    (P : String × CacheEntry → Type κ) (now : ℕ) (cache : Cache)
    → All P cache
    → All P (evict now cache)
unfolding evict
evict-All P now [] h = tt
evict-All P now ((k, e) ∷ cache) (p, h) = elim (Bool-cases (ltb e.expires_at now)) [
  | inl gone ↦ rw gone (evict-All P now cache h)
  | inr kept ↦ rw kept (p, evict-All P now cache h)
]

module _ (c : Crypto) where
  open c use {cache_key, compare, parse_scopes}

  -- The key matches the hash of the row, and the identity is read from it.
  abbrev pub IsRowOf : String → Identity → KeyRecord → Type 0
  IsRowOf raw i r =
      (compare r.hashed_key raw ≡ true)
      × (parse_scopes r.scopes ≡ some i.scopes)
      × (r.tenant_id ≡ i.tenant_id)
      × (r.id ≡ i.key_id)

  -- The query for the prefix of the key gave a row that it matches.
  abbrev pub IsVouched : (String → Answer) → String → Identity → Type 0
  IsVouched query raw i =
      (records : List (Option KeyRecord)) × (query (slice raw 0 12) ≡ rows records)
      × (r : KeyRecord) × IsMember (some r) records
      × IsRowOf raw i r

  verify_sound :
      (raw : String) (records : List (Option KeyRecord)) (i : Identity)
      → verify c raw records ≡ success i
      → (r : KeyRecord) × IsMember (some r) records × IsRowOf raw i r
  unfolding verify
  verify_sound raw [] i h = absurd (failure-ne-success _ _ h)
  verify_sound raw (none ∷ records) i h = absurd (failure-ne-success _ _ h)
  verify_sound raw (some r ∷ records) i h = elim (Bool-cases (compare r.hashed_key raw)) [
    | inl e ↦ elim (Option-cases (parse_scopes r.scopes)) [
      | inl n ↦ absurd (failure-ne-success _ _ (rw (e, n) at h))
      | inr (scopes, s) ↦ (
        r,
        inl refl,
        subst (λ j. IsRowOf raw j r) (success_injective _ i (rw (e, s) at h)) (e, s, refl, refl),
      )
    ]
    | inr e ↦ let (r', m, row) = verify_sound raw records i (rw e at h) in (r', inr m, row)
  ]

  of_answer :
      (query : String → Answer) (raw : String) (i : Identity) (a : Answer)
      → query (slice raw 0 12) ≡ a
      → verify_answer c raw a ≡ success i
      → IsVouched query raw i
  of_answer query raw i query_failed e h = absurd (failure-ne-success _ _ h)
  of_answer query raw i (rows records) e h =
      let (r, m, row) = verify_sound raw records i h in (records, e, r, m, row)

  lookup_and_verify-IsVouched :
      (query : String → Answer) (raw : String) (i : Identity)
      → lookup_and_verify c query raw ≡ success i
      → IsVouched query raw i
  unfolding lookup_and_verify
  lookup_and_verify-IsVouched query raw i h = elim (Bool-cases (ltb (len raw) 12)) [
    | inl short ↦ absurd (failure-ne-success _ _ (rw short at h))
    | inr long ↦ of_answer query raw i (query (slice raw 0 12)) refl (rw long at h)
  ]

  module _ (ttl : ℕ) where
    -- An authentication among the events verified this identity for a key with this cache key, and
    -- the entry expires `ttl` after it.
    abbrev pub IsBacked : List Event → String → Identity → ℕ → Type 0
    IsBacked events key i expires_at =
        (query : String → Answer) × (now : ℕ) × (later : ℕ) × (raw : String) × IsMember
          (authenticated query now later raw) events
        × (cache_key raw ≡ key)
        × IsVouched query raw i
        × (expires_at ≡ later + ttl)

    abbrev Backed : List Event → String × CacheEntry → Type 0
    Backed events (key, e) = IsBacked events key e.identity e.expires_at

    abbrev IsSafe : List Event → Store → Type 0
    IsSafe events s = (s.ttl ≡ ttl) × All (Backed events) s.cache

    older :
        (x : Event) (events : List Event) (cache : Cache)
        → All (Backed events) cache
        → All (Backed (x ∷ events)) cache
    older x events [] h = tt
    older x events ((key, e) ∷ cache) ((q, n, l, raw, m, k, v, t), h) =
        ((q, n, l, raw, inr m, k, v, t), older x events cache h)

    remember-IsSafe :
        (query : String → Answer) (now later : ℕ) (raw : String) (events : List Event) (s : Store)
        (o : Result)
        → lookup_and_verify c query raw ≡ o
        → IsSafe events s
        → IsSafe
            (authenticated query now later raw ∷ events)
            (remember c (cache_key raw) later o s).1
    remember-IsSafe query now later raw events s (failure e) h (t, f) =
        (t, older _ events s.cache f)
    remember-IsSafe query now later raw events s (success i) h (t, f) = (
      t,
      (
        (
          query,
          now,
          later,
          raw,
          inl refl,
          refl,
          lookup_and_verify-IsVouched query raw i h,
          ap (λ x. later + x) t,
        ),
        older _ events s.cache f,
      ),
    )

    or_verify-IsSafe :
        (o : Option CacheEntry) (now : ℕ) (events : List Event) (v : Result × Store) (s : Store)
        → IsSafe events v.1
        → IsSafe events s
        → IsSafe events (or_verify c o now v s).1
    or_verify-IsSafe none now events v s f g = f
    or_verify-IsSafe (some e) now events v s f g = elim (Bool-cases (ltb now e.expires_at)) [
      | inl fresh ↦ rw fresh g
      | inr stale ↦ rw stale f
    ]

    after-IsSafe : (events : List Event) → IsSafe events (after c ttl events)
    unfolding after apply authenticate new_store
    after-IsSafe [] = (refl, tt)
    after-IsSafe (authenticated query now later raw ∷ events) =
        let s = after c ttl events in
        let (t, f) = after-IsSafe events in
        or_verify-IsSafe (lookup (cache_key raw) s.cache) now
          (authenticated query now later raw ∷ events)
          (remember c (cache_key raw) later (lookup_and_verify c query raw) s) s
          (remember-IsSafe query now later raw events s (lookup_and_verify c query raw) refl (t, f))
          (t, older _ events s.cache f)
    after-IsSafe (evicted now ∷ events) =
        let (t, f) = after-IsSafe events in
        (
          t,
          evict-All _ now (after c ttl events).cache (older _ events (after c ttl events).cache f),
        )

    remember_success :
        (key : String) (later : ℕ) (o : Result) (s : Store) (i : Identity)
        → (remember c key later o s).0 ≡ success i
        → o ≡ success i
    remember_success key later (failure e) s i h = absurd (failure-ne-success _ _ h)
    remember_success key later (success j) s i h = h

    -- After any authentications and evictions, an identity that is given out for a key was
    -- verified just now against a row of the database; or an earlier authentication, of a key
    -- with the same SHA-256 and less than `ttl` ago, verified it.
    pub authenticate-IsVouched :
        (events : List Event) (query : String → Answer) (now later : ℕ) (raw : String)
        (i : Identity)
        → (authenticate c query now later raw (after c ttl events)).0 ≡ success i
        → IsVouched query raw i
          ⊎ ((expires_at : ℕ) × (now < expires_at) × IsBacked events (cache_key raw) i expires_at)
    unfolding authenticate
    authenticate-IsVouched events query now later raw i h =
        let s = after c ttl events in
        let v = lookup_and_verify c query raw in
        let (t, f) = after-IsSafe events in
        let verified : (remember c (cache_key raw) later v s).0 ≡ success i
            → IsVouched query raw i =
          λ k.
            lookup_and_verify-IsVouched query raw i
              (remember_success (cache_key raw) later v s i k) in
        elim (Option-cases (lookup (cache_key raw) s.cache)) [
          | inl miss ↦ inl (verified (rw (miss, authenticate) at h))
          | inr (e, hit) ↦ elim (Bool-cases (ltb now e.expires_at)) [
            | inr stale ↦ inl (verified (rw (hit, stale) at h))
            | inl fresh ↦
                let (k, same, (q, n, l, raw', m, key, vouched, at_end)) =
                  lookup-All (Backed events) (cache_key raw) s.cache e hit f in
                let eq : e.identity ≡ i = success_injective _ _ (rw (hit, fresh) at h) in
                inr (
                  e.expires_at,
                  ltb→lt now e.expires_at fresh,
                  (q, n, l, raw', m, key ∙ same, subst (IsVouched q raw') eq vouched, at_end),
                )
          ]
        ]
