-- ===== src/Config/Waits.antt =====
-- A configuration that loads gives the mock a window of waits that it keeps to.
use mathlib.Core.Path.{subst}
use budget_governor.Prelude.{String, ◌⊎◌, inl, inr, Option, none, some, ◌≡◌, arith, Bool-cases}
use budget_governor.Prelude.Int.{ℤ, pos, negsuc, ◌≤ℤ◌, ◌<ℤ◌, ltb_ℤ, IsInt64, int64_self}
use budget_governor.Provider.Mock.{latency}
use budget_governor.Provider.Mock.Bounds.{latency_bounds}
use budget_governor.Config.{Config, scale, millisecond, checked, load, settings, mock_window}

scale_mono : (a b : ℤ) → a ≤ℤ b → scale millisecond a ≤ℤ scale millisecond b
unfolding scale
scale_mono (pos a) (pos b) h = ground arith
scale_mono (pos a) (negsuc b) h = ground arith
scale_mono (negsuc a) (pos b) h = ground arith
scale_mono (negsuc a) (negsuc b) h = ground arith

some-ne-none : (c : Config) → none ≡ some c → ⊥
some-ne-none c h = ground arith

some_injective : (a b : Config) → some a ≡ some b → a ≡ b
some_injective a b h = ground arith

below_high : (low high t : ℤ) → low ≤ℤ high → (t ≡ low) ⊎ (t <ℤ high) → t ≤ℤ high
below_high low high t h (inl e) = rw e h
below_high low high t h (inr below) = omega (arith, below)

checked-IsOrdered :
    (c cfg : Config)
    → checked c ≡ some cfg
    → cfg.mock_provider_latency_min_ms ≤ℤ cfg.mock_provider_latency_max_ms
unfolding checked
checked-IsOrdered c cfg h =
    elim (Bool-cases (ltb_ℤ c.mock_provider_latency_max_ms c.mock_provider_latency_min_ms)) [
      | inl crossed ↦ absurd (some-ne-none cfg (rw crossed at h))
      | inr fine ↦
          let e = some_injective c cfg (rw fine at h) in
          let h' : c.mock_provider_latency_min_ms ≤ℤ c.mock_provider_latency_max_ms =
            ground (arith, fine) in
          subst (λ x. x.mock_provider_latency_min_ms ≤ℤ x.mock_provider_latency_max_ms) e h'
    ]

-- If the environment gives a configuration, the two limits of the mock fit into a duration, and the
-- generator keeps its contract, that a number drawn below a positive bound is not negative and less
-- than the bound, then every wait of the mock is within the two limits.
pub load-latency :
    (getenv : String → String) (atoi : String → Option ℤ) (cfg : Config) (draw : ℤ → ℤ)
    → load getenv atoi ≡ some cfg
    → IsInt64 (scale millisecond cfg.mock_provider_latency_min_ms)
    → IsInt64 (scale millisecond cfg.mock_provider_latency_max_ms)
    → ((n : ℤ) → pos 0 <ℤ n → (pos 0 ≤ℤ draw n) × (draw n <ℤ n))
    → let (low, high) = mock_window cfg in
      (scale millisecond cfg.mock_provider_latency_min_ms ≤ℤ latency draw low high)
      × (latency draw low high ≤ℤ scale millisecond cfg.mock_provider_latency_max_ms)
unfolding load mock_window
load-latency getenv atoi cfg draw h low_fits high_fits contract =
    let low = scale millisecond cfg.mock_provider_latency_min_ms in
    let high = scale millisecond cfg.mock_provider_latency_max_ms in
    let ordered =
      scale_mono cfg.mock_provider_latency_min_ms cfg.mock_provider_latency_max_ms
        (checked-IsOrdered (settings getenv atoi) cfg h) in
    let (above, below) = latency_bounds draw low high contract in
    rw (int64_self low low_fits, int64_self high high_fits)
      (above, below_high low high (latency draw low high) ordered below)
