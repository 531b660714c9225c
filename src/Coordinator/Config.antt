-- ===== src/Coordinator/Config.antt =====
-- hostagent/gpuconfig.py: the coordinator's tunables. Bytes are whole numbers, times are in ms.
use mlops_lite.Base.{ℕ, ◌-◌, ◌*◌, ◌^◌, Option, none, some, min}

pub record Config : Type 0 where
  pub safety_reserve_bytes : ℕ
  pub safety_headroom_bytes : ℕ
  pub max_admission_attempts : ℕ
  pub drain_timeout : ℕ
  pub job_drain_timeout : ℕ
  pub admission_backoff_base : ℕ
  pub admission_backoff_cap : ℕ
  pub configured_budget_bytes : Option ℕ

-- The wait before the next attempt, in µs: the jitter is given in thousandths.
unfoldable pub backoff_for : Config → (attempt jitter : ℕ) → ℕ
backoff_for c attempt jitter =
    let raw = c.admission_backoff_base * 2 ^ (attempt - 1) in
    let capped = min raw c.admission_backoff_cap in capped * jitter

abbrev bounded_by : Option ℕ → ℕ → ℕ
bounded_by none n = n
bounded_by (some limit) n = min n limit

-- `max(0.0, min(total - reserve, budget))`: the subtraction of ℕ stops at 0 as `max` does.
unfoldable pub usable_capacity : Config → (device_total_bytes : ℕ) → ℕ
usable_capacity c device_total_bytes =
    bounded_by c.configured_budget_bytes (device_total_bytes - c.safety_reserve_bytes)
