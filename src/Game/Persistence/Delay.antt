-- ===== src/Game/Persistence/Delay.antt =====
-- src/game/services/player_persistence_service.cpp: the bounds of `ComputeRetryDelayMs`.
use some_server.Base.{
  ℕ, zero, suc, ◌-◌, ◌*◌, ◌^◌, ◌≤◌, ◌<◌, ◌≡◌, ◌⊎◌, inl, inr, refl, some, arith, ltb, if◌then◌else◌,
  Eq_ℕ, Eq_String, Eq_Bytes,
}
use some_server.Game.Persistence.{DatasetTimingConfiguration, backoff, compute_retry_delay_ms}

-- 2 ^ n, up to the limit.
abbrev pub capped_power : ℕ → ℕ
capped_power zero = 1
capped_power (suc zero) = 2
capped_power (suc (suc zero)) = 4
capped_power _ = 8

backoff_stops : (rounds : ℕ) → backoff rounds 8 ≡ 8
unfolding backoff
backoff_stops zero = refl
backoff_stops (suc rounds) = refl

backoff_lem : (rounds : ℕ) → backoff rounds 1 ≡ capped_power rounds
unfolding backoff
backoff_lem zero = refl
backoff_lem (suc zero) = refl
backoff_lem (suc (suc zero)) = refl
backoff_lem (suc (suc (suc n))) = backoff_stops n

abbrev pub SecondsFit : DatasetTimingConfiguration → Type 0
SecondsFit t = (t.landing_min_time_seconds < 2 ^ 32) × (t.landing_time_seconds < 2 ^ 32)

capped_power_cases :
    (n : ℕ)
    → (capped_power n ≡ 1) ⊎ ((capped_power n ≡ 2) ⊎ ((capped_power n ≡ 4) ⊎ (capped_power n ≡ 8)))
capped_power_cases zero = inl refl
capped_power_cases (suc zero) = inr (inl refl)
capped_power_cases (suc (suc zero)) = inr (inr (inl refl))
capped_power_cases (suc (suc (suc n))) = inr (inr (inr refl))

capped_power_grows : (n : ℕ) → capped_power n ≤ capped_power (suc n)
capped_power_grows zero = ground arith
capped_power_grows (suc zero) = ground arith
capped_power_grows (suc (suc zero)) = ground arith
capped_power_grows (suc (suc (suc n))) = ground arith

-- The delay without the remainders of 64-bit numbers.
abbrev pub capped_delay : ℕ → ℕ → ℕ
capped_delay delay max = if ltb delay max then delay else max

delay_lem :
    (t : DatasetTimingConfiguration) (n : ℕ)
    → SecondsFit t
    → compute_retry_delay_ms (some t) n
      ≡ capped_delay
          (t.landing_min_time_seconds * 1000 * capped_power (n - 1))
          (t.landing_time_seconds * 1000)
unfolding compute_retry_delay_ms
delay_lem t n fit = elim (capped_power_cases (n - 1)) [
  | inl e ↦ rw (backoff_lem (n - 1), e) (ground arith)
  | inr (inl e) ↦ rw (backoff_lem (n - 1), e) (ground arith)
  | inr (inr (inl e)) ↦ rw (backoff_lem (n - 1), e) (ground arith)
  | inr (inr (inr e)) ↦ rw (backoff_lem (n - 1), e) (ground arith)
]

-- With settings that fit in 32 bits the delay passes neither the longest time nor eight times the
-- shortest, does not stay below the shortest unless the longest is shorter, and does not fall as
-- failures follow each other.
pub compute_retry_delay_ms_bounds :
    (t : DatasetTimingConfiguration) (n : ℕ)
    → SecondsFit t
    → (compute_retry_delay_ms (some t) n ≤ t.landing_time_seconds * 1000)
      × (compute_retry_delay_ms (some t) n ≤ 8 * (t.landing_min_time_seconds * 1000))
      × ((t.landing_min_time_seconds * 1000 ≤ compute_retry_delay_ms (some t) n)
          ⊎ (compute_retry_delay_ms (some t) n ≡ t.landing_time_seconds * 1000))
      × (compute_retry_delay_ms (some t) n ≤ compute_retry_delay_ms (some t) (suc n))
compute_retry_delay_ms_bounds t zero fit =
    rw (delay_lem t zero fit, delay_lem t (suc zero) fit) (ground arith)
compute_retry_delay_ms_bounds t (suc zero) fit =
    rw (delay_lem t (suc zero) fit, delay_lem t (suc (suc zero)) fit) (ground arith)
compute_retry_delay_ms_bounds t (suc (suc zero)) fit =
    rw (delay_lem t (suc (suc zero)) fit, delay_lem t (suc (suc (suc zero))) fit) (ground arith)
compute_retry_delay_ms_bounds t (suc (suc (suc zero))) fit =
    rw (delay_lem t (suc (suc (suc zero))) fit, delay_lem t (suc (suc (suc (suc zero)))) fit)
      (ground arith)
compute_retry_delay_ms_bounds t (suc (suc (suc (suc n)))) fit =
    rw (delay_lem t (suc (suc (suc (suc n)))) fit, delay_lem t (suc (suc (suc (suc (suc n))))) fit)
      (ground arith)
