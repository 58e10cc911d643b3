-- ===== src/Services/Keys/Accepted.antt =====
-- A key that controlplane/app issues is accepted by both services.
use Prim.Native.String.append
use mathlib.Core.Path.{subst}
use Prim.Native.String.{len, slice}
use text.Mathlib.TextPositions.{
  slice-append_left, slice-append_right, len-append, eq_refl, starts_with-append,
}
use budget_governor.Prelude.{
  ℕ, ◌+◌, ◌≡◌, refl, ap, String, true, false, not, ◌&&◌, none, some, List, [], ◌∷◌, ◌++◌, map,
  arith, All, ltb, str_eq, if-both,
}
use budget_governor.Auth.Keys.{
  Crypto, verify, lookup_and_verify, authenticate, success, new_store, lookup,
}
use budget_governor.Services.Advisor.{characters}
use budget_governor.Services.Keys.{
  ApiKey, ControlPlane, KeyOwner, Bcrypt, ◌+ₛ◌, generate_api_key, take_characters, is_shorter,
  key_prefix_of, select_keys, record_of, gateway_query, is_match, verify_key, find_owner,
  owner_of_key, get_current_identity, Issue, Issued, issued, new_key, issue_api_key, may_issue,
  are_valid, is_nonempty, has_text,
}

-- What both services rely on: bcrypt accepts the key that was hashed, in Python and in Go alike, and the
-- JSON of the scopes is read as it was written.
pub record IsShared (b : Bcrypt) (c : Crypto) (dumps : List String → String) (scopes : List String)
    : Type 0 where
  pub check_self : (raw salt : String) → b.checkpw raw (b.hashpw raw salt) ≡ some true
  pub agree : (raw hashed : String) → c.compare hashed raw ≡ is_match b (b.checkpw raw hashed)
  pub read_back : c.parse_scopes (dumps scopes) ≡ some scopes

-- The first twelve characters of a text are as many bytes.
pub record IsPlain (raw : String) : Type 0 where
  pub front : String
  pub back : String
  pub split : raw ≡ front +ₛ back
  pub twelve_characters : characters front ≡ 12
  pub twelve_bytes : len front ≡ 12

take_characters-append : (s t : String) → take_characters (characters s) (s +ₛ t) ≡ s
unfolding take_characters characters
take_characters-append String.[] t = refl
take_characters-append (String.◌∷◌ c s) t =
    rw (append.cons c s t) (ap (String.◌∷◌ c) (take_characters-append s t))

is_shorter-append : (s t : String) → is_shorter (characters s) (s +ₛ t) ≡ false
unfolding is_shorter characters
is_shorter-append String.[] t = refl
is_shorter-append (String.◌∷◌ c s) t = rw (append.cons c s t) (is_shorter-append s t)

module _ (raw : String) (plain : IsPlain raw) where
  open plain use {front, back, split, twelve_characters, twelve_bytes}

  prefix-front : key_prefix_of raw ≡ front
  unfolding key_prefix_of
  prefix-front = rw (split, ← twelve_characters) (take_characters-append front back)

  -- Both services cut the same prefix off.
  slice-prefix : slice raw 0 12 ≡ key_prefix_of raw
  slice-prefix = rw (prefix-front, split, ← twelve_bytes) (slice-append_left front back)

  long_enough : ltb (len raw) 12 ≡ false
  long_enough =
      let e : len raw ≡ len front + len back = rw split (len-append front back) in
      ground (arith, e, twelve_bytes)

  characters_enough : is_shorter 12 raw ≡ false
  characters_enough = rw (split, ← twelve_characters) (is_shorter-append front back)

-- No key of the list passes for this one.
abbrev pub IsUnmatched : Bcrypt → String → List ApiKey → Type 0
IsUnmatched b raw = All λ k. verify_key b raw k.hashed_key ≡ false

module _ (b : Bcrypt) (raw : String) (k : ApiKey) (own : verify_key b raw k.hashed_key ≡ true)
    (live : k.revoked ≡ false) where
  abbrev key_owner : KeyOwner
  key_owner = record {
    tenant_id = k.tenant_id;
    key_id = k.id;
    scopes = k.scopes;
    agent_id = k.agent_id;
  }

  find_owner-new :
      (keys : List ApiKey)
      → IsUnmatched b raw keys
      → find_owner b raw (select_keys k.key_prefix (keys ++ k ∷ [])) ≡ some key_owner
  unfolding find_owner select_keys
  find_owner-new [] h = rw (eq_refl k.key_prefix, live, own)
  find_owner-new (x ∷ keys) (h, hs) =
      if-both (λ l. find_owner b raw l ≡ some key_owner)
        (str_eq x.key_prefix k.key_prefix && not x.revoked) _ _ (λ _. rw h (find_owner-new keys hs))
        (λ _. find_owner-new keys hs)

  module _ (c : Crypto) (dumps : List String → String) (shared : IsShared b c dumps k.scopes) where
    open shared use {agree, read_back}

    verify-new :
        (keys : List ApiKey)
        → IsUnmatched b raw keys
        → verify c raw (
            map
              (λ (x : ApiKey). some (record_of dumps x))
              (select_keys k.key_prefix (keys ++ k ∷ [])))
          ≡ success (record { tenant_id = k.tenant_id; key_id = k.id; scopes = k.scopes })
    unfolding verify select_keys verify_key
    verify-new [] h = rw (eq_refl k.key_prefix, live, agree raw k.hashed_key, own, read_back)
    verify-new (x ∷ keys) (h, hs) =
        if-both
          (λ l.
            verify c raw (map (λ (x : ApiKey). some (record_of dumps x)) l)
            ≡ success (record { tenant_id = k.tenant_id; key_id = k.id; scopes = k.scopes }))
          (str_eq x.key_prefix k.key_prefix && not x.revoked) _ _
          (λ _. rw (agree raw x.hashed_key, h) (verify-new keys hs)) (λ _. verify-new keys hs)

-- Behind `Bearer` stands the key.
header-key : (raw : String) → slice ("Bearer " +ₛ raw) 7 (len ("Bearer " +ₛ raw)) ≡ raw
header-key raw = rw (len-append "Bearer " raw) (slice-append_right "Bearer " raw)

module _ (b : Bcrypt) (c : Crypto) (dumps : List String → String) (r : Issue)
    (shared : IsShared b c dumps r.scopes) where
  -- What happened where a key was issued.
  abbrev IsIssue : ControlPlane → Issued × ControlPlane → Type 0
  IsIssue cp (issued id raw, cp') =
      (may_issue b cp.api_keys r.tenant_id r.expected r.token r.authorization ≡ true)
      × (are_valid r.scopes ≡ true)
      × (id ≡ r.id)
      × (raw ≡ generate_api_key r.body)
      × (cp'.api_keys ≡ cp.api_keys ++ new_key b r ∷ [])
  IsIssue cp (_, cp') = Unit

  issue_api_key-IsIssue : (cp : ControlPlane) → IsIssue cp (issue_api_key b r cp)
  unfolding issue_api_key
  issue_api_key-IsIssue cp =
      if-both (IsIssue cp) (has_text cp.tenants r.tenant_id) _ _
        (λ _.
          if-both (IsIssue cp)
            (may_issue b cp.api_keys r.tenant_id r.expected r.token r.authorization) _ _
            (λ may.
              if-both (IsIssue cp) (are_valid r.scopes && is_nonempty r.scopes) _ _
                (λ ok. (may, ground (arith, ok), refl, refl, refl)) (λ _. tt))
            (λ _. tt))
        (λ _. tt)

  new_key-own : verify_key b (generate_api_key r.body) (new_key b r).hashed_key ≡ true
  unfolding verify_key new_key
  new_key-own = rw (shared.check_self (generate_api_key r.body) r.salt)

  authenticate-new :
      (keys : List ApiKey) (now after_it ttl : ℕ)
      → IsPlain (generate_api_key r.body)
      → IsUnmatched b (generate_api_key r.body) keys
      → (authenticate c
          (gateway_query dumps (keys ++ new_key b r ∷ []))
          now
          after_it
          (generate_api_key r.body)
          (new_store ttl)).0
        ≡ success (record { tenant_id = r.tenant_id; key_id = r.id; scopes = r.scopes })
  unfolding authenticate lookup_and_verify gateway_query new_store lookup new_key
  authenticate-new keys now after_it ttl plain fresh =
      let raw = generate_api_key r.body in
      let found = verify-new b raw (new_key b r) new_key-own refl c dumps shared keys fresh in
      let e : lookup_and_verify c (gateway_query dumps (keys ++ new_key b r ∷ [])) raw
          ≡ success (record { tenant_id = r.tenant_id; key_id = r.id; scopes = r.scopes }) =
        rw (long_enough raw plain, slice-prefix raw plain) found in
      rw e refl

  owner_of_key-new :
      (keys : List ApiKey)
      → IsPlain (generate_api_key r.body)
      → IsUnmatched b (generate_api_key r.body) keys
      → owner_of_key b (keys ++ new_key b r ∷ []) (generate_api_key r.body)
        ≡ some
            (record { tenant_id = r.tenant_id; key_id = r.id; scopes = r.scopes; agent_id = none })
  unfolding owner_of_key new_key
  owner_of_key-new keys plain fresh =
      let raw = generate_api_key r.body in
      rw (characters_enough raw plain)
        (find_owner-new b raw (new_key b r) new_key-own refl keys fresh)

  -- If the services share bcrypt and the JSON of the scopes, the first twelve characters of the key are
  -- as many bytes, no key of the table passes for it, and stripping leaves it as it is, then a key that
  -- is issued was asked for with the platform token or by an administrator of its tenant, with scopes
  -- that are valid; and the gateway, with nothing in its cache, and the control plane both accept it,
  -- as a key of that tenant with these scopes.
  pub issue_api_key-IsAccepted :
      (cp cp' : ControlPlane) (id raw : String) (now after_it ttl : ℕ)
      → issue_api_key b r cp ≡ (issued id raw, cp')
      → IsPlain raw
      → IsUnmatched b raw cp.api_keys
      → b.strip raw ≡ raw
      → (may_issue b cp.api_keys r.tenant_id r.expected r.token r.authorization ≡ true)
        × (are_valid r.scopes ≡ true)
        × ((authenticate c (gateway_query dumps cp'.api_keys) now after_it raw (new_store ttl)).0
            ≡ success (record { tenant_id = r.tenant_id; key_id = id; scopes = r.scopes }))
        × (get_current_identity b cp'.api_keys (some ("Bearer " +ₛ raw))
            ≡ some (record {
              tenant_id = r.tenant_id;
              key_id = id;
              scopes = r.scopes;
              agent_id = none;
            }))
  unfolding get_current_identity
  issue_api_key-IsAccepted cp cp' id raw now after_it ttl h plain fresh stripped =
      let (may, valid, e, e', keys) : IsIssue cp (issued id raw, cp') =
        subst (IsIssue cp) h (issue_api_key-IsIssue cp) in
      let plain' = subst IsPlain e' plain in
      let fresh' = subst (λ x. IsUnmatched b x cp.api_keys) e' fresh in
      rw (header-key raw, starts_with-append "Bearer " raw, stripped, e, e', keys)
        (
          may,
          valid,
          authenticate-new cp.api_keys now after_it ttl plain' fresh',
          owner_of_key-new cp.api_keys plain' fresh',
        )
