-- ===== src/Examples/Reports.antt =====
-- The theorems on the bounds of a report at concrete inputs.
use host_monitoring_client.Common.{
  ℕ, ◌≡◌, refl, ◌+◌, ◌*◌, ◌/◌, Bool, arith, false, some, [], ◌∷◌, length,
}
use host_monitoring_client.Common.Text.{Text, codes, is_control}
use host_monitoring_client.ReportContract.{truncate_utf8, bound_required_text}
use host_monitoring_client.ReportContract.Bounds.{
  Longest, Bounded, truncate_utf8-Longest, bound_required_text-Bounded,
}
use host_monitoring_client.ReportContract.Fit.{Measure, Report, fit_body, capability_minimum_of}
use host_monitoring_client.ReportContract.Fit.Ends.{Within, Settled, fit_body-Settled}

-- The second character has two bytes, the limit splits it.
truncate_utf8-Longest_example :
    Longest (104 ∷ 233 ∷ 108 ∷ []) 2 (truncate_utf8 (104 ∷ 233 ∷ 108 ∷ []) 2)
truncate_utf8-Longest_example = truncate_utf8-Longest (104 ∷ 233 ∷ 108 ∷ []) 2

abbrev cleaned : Text × Bool
cleaned = bound_required_text (27 ∷ 104 ∷ 233 ∷ 108 ∷ []) 2 (codes "unknown")

bound_required_text-Bounded_example :
    Bounded 2 (cleaned.0)
    × (bound_required_text (cleaned.0) 2 (codes "unknown") ≡ (cleaned.0, false))
unfolding is_control
bound_required_text-Bounded_example =
    bound_required_text-Bounded (27 ∷ 104 ∷ 233 ∷ 108 ∷ []) 2 (codes "unknown") refl

-- Readings are numbers, and each takes 10 bytes.
abbrev measure : Measure Text ℕ ℕ ℕ ℕ ℕ ℕ
measure = record {
  max_body_bytes = 30;
  capability_name = λ c. c;
  serialized_len = λ c n d t g h x. (length c + length n + length d + length t + length g) * 10;
  scaled = λ bytes n. n * 30 / bytes;
}

abbrev crowded : Report Text ℕ ℕ ℕ ℕ ℕ ℕ
crowded = record {
  capabilities = codes "client.report.truncated" ∷ [];
  networks = 1 ∷ 2 ∷ [];
  disks = 3 ∷ 4 ∷ 5 ∷ [];
  temperatures = 6 ∷ [];
  gpus = [];
  hardware = some 1;
  rest = 0;
}

fit_body-Settled_example :
    (r' : Report Text ℕ ℕ ℕ ℕ ℕ ℕ) × (fit_body measure 8 1 1 0 0 crowded ≡ some r')
    × Within measure r' crowded
    × Settled measure (capability_minimum_of measure crowded) r'
fit_body-Settled_example = fit_body-Settled measure 8 1 1 0 0 crowded (omega arith)
