-- ===== src/Backpressure.antt =====
-- core/src/service/backpressure.service.ts. The depth that Redis answers is an input.
mod Rounds
use code_warzz.Prelude.{ℕ, ◌*◌, Bool, true, false, List, [], ◌∷◌, leb, if◌then◌else◌}

pub record BackpressureConfig : Type 0 where
  pub max_queue_depth : ℕ
  pub warning_threshold : ℕ
  pub check_interval_ms : ℕ

-- `DEFAULT_CONFIG`
abbrev pub default_backpressure : BackpressureConfig
default_backpressure = record {
  max_queue_depth = 1000;
  warning_threshold = 700;
  check_interval_ms = 5000;
}

pub data Level : Type 0 where
  ok warning critical : Level

-- `BackpressureMonitor`
pub record Monitor : Type 0 where
  pub config : BackpressureConfig
  pub is_overloaded : Bool

pub record DepthStatus : Type 0 where
  pub depth : ℕ
  pub is_overloaded : Bool
  pub level : Level

-- `checkQueueDepth`
unfoldable pub check_queue_depth : ℕ → Monitor → Monitor × DepthStatus
check_queue_depth depth m =
    if leb m.config.max_queue_depth depth
    then (
      record m { is_overloaded = true },
      record { depth = depth; is_overloaded = true; level = critical },
    )
    else (
      record m { is_overloaded = false },
      record {
        depth = depth;
        is_overloaded = false;
        level = if leb m.config.warning_threshold depth then warning else ok;
      },
    )

-- `retryAfterMs` of `getBackpressureResponse`
abbrev pub retry_after_ms : Monitor → ℕ
retry_after_ms m = m.config.check_interval_ms * 2

-- one round of `startMonitoring` over the depths of the queues: the monitor, and the levels that are logged
unfoldable pub monitor_round : List ℕ → Monitor → Monitor × List Level
unfolding check_queue_depth
monitor_round [] m = (m, [])
monitor_round (depth ∷ depths) m =
    let (m', status) = check_queue_depth depth m in
    let (last, levels) = monitor_round depths m' in (last, status.level ∷ levels)
