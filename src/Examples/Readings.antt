-- ===== src/Examples/Readings.antt =====
-- The theorems on the hardware readings at concrete inputs.
use host_monitoring_client.Common.{
  ℕ, ◌≡◌, refl, ◌≤◌, ◌+◌, ◌^◌, ◌*◌, ◌-◌, arith, false, Option, none, some, List, [], ◌∷◌, ◌⊎◌,
  if◌then◌else◌, ltb, Bool, ◌/◌, ◌++◌,
}
use host_monitoring_client.Common.Text.{Text, codes, text_eq}
use host_monitoring_client.Collectors.PdhBuffer.{
  PdhBufferLayout, plan_pdh_buffer, validate_pdh_result, max_pdh_array_bytes,
  validate_pdh_result_within,
}
use host_monitoring_client.Collectors.PdhRecovery.{
  RetryingPdhResource, Event, asked, invalid, ready, broken, new, after, Fit, failures, seconds,
  after-Fit, failures_delay, get_or_try_init_after_failure, initialized, get_or_try_init,
  record_failure,
}
use host_monitoring_client.Collectors.DiskRates.{DiskSnapshot, Counters, update}
use host_monitoring_client.Collectors.DiskRates.Kept.{update_absent, update_continued}
use host_monitoring_client.Collectors.Gpu.{
  GpuSnapshot, Limits, merge_windows, supplement_memory, over,
}
use host_monitoring_client.Collectors.Gpu.Merged.{
  Extends, supplement_memory_consistent, merge_windows-Extends,
}

abbrev usize_max : ℕ
usize_max = 2 ^ 64 - 1

-- Two items of 24 bytes hold 25 bytes.
abbrev layout : PdhBufferLayout
layout = record { slots = 2; capacity_bytes = 48 }

abbrev items : ℕ
items = 2

validate_pdh_result_within_example :
    (items ≡ 2) × (items ≤ 2) × (items * 24 ≤ 48) × (48 ≤ 48) × (48 ≤ max_pdh_array_bytes)
unfolding plan_pdh_buffer validate_pdh_result
validate_pdh_result_within_example =
    validate_pdh_result_within usize_max 25 1 24 48 2 layout 2 refl refl

abbrev events : List (Event ℕ)
events =
    asked 100 (broken (codes "unavailable"))
    ∷ asked (100 + seconds 30) (ready 7)
    ∷ invalid (100 + seconds 40) (codes "invalid handle")
    ∷ []

after-Fit_example : Fit (2 ^ 80) (after (2 ^ 80) events (new (2 ^ 80)))
after-Fit_example = after-Fit (2 ^ 80) events

abbrev fresh : RetryingPdhResource ℕ
fresh = record {
  value = none;
  last_error = none;
  next_retry_at = none;
  retry_delay = seconds 30;
  ever_succeeded = false;
}

failures_delay_example :
    RetryingPdhResource.retry_delay
      (failures (2 ^ 80) ((0, codes "a") ∷ (seconds 30, codes "b") ∷ []) fresh)
    ≡ seconds 120
failures_delay_example =
    failures_delay (2 ^ 80) ((0, codes "a") ∷ (seconds 30, codes "b") ∷ []) fresh refl

get_or_try_init_after_failure_example :
    get_or_try_init (2 ^ 80) (seconds 29) (ready 7) (record_failure (2 ^ 80) 0 (codes "a") fresh)
    ≡ (if ltb (seconds 29) (0 + seconds 30)
        then record {
          answer = broken (codes "a");
          state = record_failure (2 ^ 80) 0 (codes "a") fresh;
          called = false;
        }
        else initialized
            (2 ^ 80)
            (seconds 29)
            (ready 7)
            (record_failure (2 ^ 80) 0 (codes "a") fresh))
get_or_try_init_after_failure_example =
    get_or_try_init_after_failure (2 ^ 80) fresh 0 (seconds 29) (codes "a") (ready 7) refl
      (omega arith)

-- Rates are numbers here: bytes for a second of the interval.
abbrev per_second : ℕ → ℕ → ℕ
per_second delta elapsed = delta / elapsed

abbrev volume : Text → ℕ → ℕ → DiskSnapshot ℕ Unit
volume name read written = record {
  name = name;
  mount_point = codes "/data";
  file_system = codes "ext4";
  read_bytes_total = read;
  written_bytes_total = written;
  read_bytes_per_second = 0;
  written_bytes_per_second = 0;
  rest = tt;
}

abbrev reading : List (DiskSnapshot ℕ Unit)
reading = volume (codes "a") 1000 2000 ∷ volume (codes "b") 5 6 ∷ []

abbrev kept : Counters
kept = (update per_second [] reading 10).0

update_absent_example :
    (update per_second kept ([] ++ (volume (codes "c") 512000 9 ∷ [])) 10).1
    ≡ (update per_second kept [] 10).1
      ++ (volume (codes "c") 512000 9 ∷ (update per_second kept [] 10).1)
unfolding text_eq
update_absent_example =
    update_absent per_second [] reading 10 10 [] (volume (codes "c") 512000 9) [] refl

update_continued_example :
    (update per_second kept ([] ++ (volume (codes "a") 2000 4000 ∷ [])) 10).1
    ≡ (update per_second kept [] 10).1
      ++ (record (volume (codes "a") 2000 4000) {
        read_bytes_per_second = 100;
        written_bytes_per_second = 200;
      }
          ∷ (update per_second kept [] 10).1)
unfolding text_eq
update_continued_example =
    update_continued per_second [] [] (volume (codes "a") 1000 2000) (volume (codes "b") 5 6 ∷ [])
      10 10 [] (volume (codes "a") 2000 4000) [] refl refl

abbrev adapter : Text → Option ℕ → Option ℕ → GpuSnapshot ℕ
adapter id total used = record {
  id = id;
  vendor = codes "nvidia";
  name = codes "model";
  memory_total_bytes = total;
  memory_used_bytes = used;
  utilization_percent = some 50;
  temperature_celsius = none;
  power_watts = none;
  core_clock_mhz = none;
  memory_clock_mhz = none;
  pcie_rx_bytes_per_second = none;
  pcie_tx_bytes_per_second = none;
  source = codes "nvml";
}

abbrev luid : Text
luid = codes "luid_00000000_00000001"

abbrev limits : Limits
limits = record { usize_max = usize_max; max_gpus = 64 }

merge_windows-Extends_example : Extends limits (adapter (codes "GPU-1") (some 1000) none ∷ []) (
    (merge_windows limits
      (adapter (codes "GPU-1") (some 1000) none ∷ [])
      (adapter luid (some 1000) (some 900) ∷ [])
      (some luid ∷ [])).0)
merge_windows-Extends_example =
    merge_windows-Extends limits (adapter (codes "GPU-1") (some 1000) none ∷ [])
      (adapter luid (some 1000) (some 900) ∷ []) (some luid ∷ [])

abbrev supplied : Bool × GpuSnapshot ℕ
supplied =
    supplement_memory (adapter (codes "GPU-1") (some 1000) none)
      (adapter luid (some 1000) (some 900))

supplement_memory_consistent_example :
    (((supplied).1 ≡ adapter (codes "GPU-1") (some 1000) none)
      ⊎ (over
            (GpuSnapshot.memory_used_bytes (supplied.1))
            (GpuSnapshot.memory_total_bytes (supplied.1))
          ≡ false))
    × ((GpuSnapshot.memory_used_bytes (adapter (codes "GPU-1") (some 1000) none) ≡ none)
        ⊎ (GpuSnapshot.memory_used_bytes (supplied.1) ≡ none))
    × ((GpuSnapshot.memory_total_bytes (adapter (codes "GPU-1") (some 1000) none) ≡ none)
        ⊎ (GpuSnapshot.memory_total_bytes (supplied.1) ≡ some 1000))
supplement_memory_consistent_example =
    supplement_memory_consistent (adapter (codes "GPU-1") (some 1000) none)
      (adapter luid (some 1000) (some 900))
