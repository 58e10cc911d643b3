-- ===== src/Examples/Tenants.antt =====
-- The configuration of two tenants, for gateway/internal/budget/configcache.go.
use Prim.Native.Char.{Char, code}
use mathlib.Core.Bool.{false≢true}
use budget_governor.Prelude.{
  ℕ, ◌≡◌, ◌≢◌, refl, ap, ◌⊎◌, true, false, Option, none, some, String, List, [], ◌∷◌, All, arith,
  length, map, eq_iff,
}
use budget_governor.Prelude.Int.{ℤ, pos}
use budget_governor.Prelude.Float.{fixed, fixed_of_int}
use budget_governor.Budget.Enforcer.{check_and_decrement}
use budget_governor.Budget.Enforcer.Marshal.{IsDistinctRefs}
use budget_governor.Budget.ConfigCache.{
  Row, ConfigKey, ConfigMap, Query, result, key_of, load, refresh, lookup, resolve, task_ref,
  agent_ref, tenant_ref,
}
use budget_governor.Budget.ConfigCache.Keys.{IsField}
use budget_governor.Budget.ConfigCache.Load.{latest, refresh_effect}
use budget_governor.Budget.ConfigCache.Resolve.{resolve-IsDistinctRefs}
use budget_governor.Budget.ConfigCache.Isolation.{resolve_isolation}
use budget_governor.Examples.Budgets.{redis, weather, system, usd}

abbrev pub row : String → Option String → Option String → ℕ → Row ℤ
row tenant_id agent_id task_id tokens = record {
  tenant_id = tenant_id;
  agent_id = agent_id;
  task_id = task_id;
  token_limit = some (pos tokens);
  dollar_limit = some (fixed_of_int (pos 5));
  refill_per_minute = some (fixed_of_int (pos 60));
}

abbrev rows : List (Row ℤ)
rows =
    row "acme" none none 9000
    ∷ row "acme" (some "writer") none 5000
    ∷ row "acme" (some "writer") (some "42") 1000
    ∷ row "corp" none none 700
    ∷ []

abbrev query : Query ℤ
query = result (map some rows) true

abbrev entries : ConfigMap ℤ
entries = (refresh query []).1

resolved : length (resolve "acme" "writer" "42" entries) ≡ 3
unfolding resolve task_ref agent_ref tenant_ref lookup refresh load key_of
resolved = refl

writer-ne-dash : ◌≢◌ {A = String} "writer" "-"
writer-ne-dash h = absurd (false≢true ((eq_iff "writer" "-").1 h))

number-ne-dash : ◌≢◌ {A = String} "42" "-"
number-ne-dash h = absurd (false≢true ((eq_iff "42" "-").1 h))

resolve-IsDistinctRefs_example : IsDistinctRefs (resolve "acme" "writer" "42" entries)
resolve-IsDistinctRefs_example =
    resolve-IsDistinctRefs "acme" "writer" "42" entries writer-ne-dash number-ne-dash

-- A character with another code.
other_char : (c x : Char) → code c ≢ code x → c ≢ x
other_char c x h e = h (ap code e)

acme-IsField : IsField "acme"
acme-IsField = (
  other_char "a" ":" (omega arith),
  (
    other_char "c" ":" (omega arith),
    (other_char "m" ":" (omega arith), (other_char "e" ":" (omega arith), tt)),
  ),
)

corp-IsField : IsField "corp"
corp-IsField = (
  other_char "c" ":" (omega arith),
  (
    other_char "o" ":" (omega arith),
    (other_char "r" ":" (omega arith), (other_char "p" ":" (omega arith), tt)),
  ),
)

acme-ne-corp : ◌≢◌ {A = String} "acme" "corp"
acme-ne-corp h = absurd (false≢true ((eq_iff "acme" "corp").1 h))

resolve_isolation_example :
    All
      (λ b.
        (check_and_decrement redis weather
            (resolve "acme" "writer" "42" entries)
            (pos 300)
            usd
            system).1.store
          b.key
        ≡ system.store b.key)
      (resolve "corp" "" "" entries)
resolve_isolation_example =
    resolve_isolation redis weather "acme" "corp" "writer" "" "42" "" entries entries (pos 300) usd
      system acme-IsField corp-IsField acme-ne-corp

refresh_effect_example :
    let (done, out) = refresh query entries in
    ((done ≡ false) × (out ≡ entries))
    ⊎ ((scanned : List (Row ℤ)) × (query ≡ result (map some scanned) true)
        × (done ≡ true)
        × ((key : ConfigKey) → lookup key out ≡ latest key scanned))
refresh_effect_example = refresh_effect query entries
