-- ===== src/ReportContract/Fit.antt =====
-- src/report_contract.rs: `fit_body`, which takes readings out of a report until its JSON fits the body limit.
pub mod Prefix
pub mod Ends
use host_monitoring_client.Common.{
  ℕ, zero, suc, ◌-◌, ◌+◌, min, max, Bool, true, false, not, ◌||◌, Option, none, some, List, [], ◌∷◌,
  ◌==◌, leb, ltb, if◌then◌else◌, length,
}
use host_monitoring_client.Common.Text.{Text, text_eq, codes}
use host_monitoring_client.ReportContract.{take}

-- `CLIENT_REPORT_MAX_BODY_BYTES`, the length of a report's JSON, the names of its
-- capabilities, and the product of the floating point numbers that `shrink` rounds down: for the bytes of
-- the report and the length of a collection, the length that it aims at.
pub record Measure (C N D T G H X : Type 0) : Type 0 where
  pub max_body_bytes : ℕ
  pub capability_name : C → Text
  pub serialized_len : List C → List N → List D → List T → List G → Option H → X → ℕ
  pub scaled : ℕ → ℕ → ℕ

-- The collections of a report, the optional hardware part, and the rest, which stays as it is.
pub record Report (C N D T G H X : Type 0) : Type 0 where
  pub capabilities : List C
  pub networks : List N
  pub disks : List D
  pub temperatures : List T
  pub gpus : List G
  pub hardware : Option H
  pub rest : X

-- How much of each collection is kept, in the order of `collection_lengths`.
pub record Minima : Type 0 where
  pub capability_minimum : ℕ
  pub network_minimum : ℕ
  pub disk_minimum : ℕ
  pub temperature_minimum : ℕ
  pub gpu_minimum : ℕ

-- `TRUNCATED_CAPABILITY`.
abbrev pub truncated_capability : Text
truncated_capability = codes "client.report.truncated"

-- `shrink`.
unfoldable pub shrink : {A : Type 0} → (ℕ → ℕ) → List A → ℕ → List A
shrink scaled values minimum =
    let target = max (scaled (length values)) minimum in
    if leb (length values) minimum
    then values
    else take (if leb (length values) target then length values - 1 else target) values

-- `Vec::pop`.
unfoldable pub pop : {A : Type 0} → List A → List A
pop values = take (length values - 1) values

abbrev pub is_empty : {A : Type 0} → List A → Bool
is_empty [] = true
is_empty (x ∷ xs) = false

module _ {C N D T G H X : Type 0} (m : Measure C N D T G H X) where
  abbrev pub serialized_len : Report C N D T G H X → ℕ
  serialized_len r =
      m.serialized_len r.capabilities r.networks r.disks r.temperatures r.gpus r.hardware r.rest

  -- The sum of what the collections have over their minima.
  unfoldable pub removable : Minima → Report C N D T G H X → ℕ
  removable k r =
      (length r.capabilities - k.capability_minimum)
      + (length r.networks - k.network_minimum)
      + (length r.disks - k.disk_minimum)
      + (length r.temperatures - k.temperature_minimum)
      + (length r.gpus - k.gpu_minimum)

  unfoldable pub shrink_collections : Minima → Report C N D T G H X → Report C N D T G H X
  shrink_collections k r =
      let scaled = m.scaled (max (serialized_len r) 1) in
      record r {
        capabilities = shrink scaled r.capabilities k.capability_minimum;
        networks = shrink scaled r.networks k.network_minimum;
        disks = shrink scaled r.disks k.disk_minimum;
        temperatures = shrink scaled r.temperatures k.temperature_minimum;
        gpus = shrink scaled r.gpus k.gpu_minimum;
      }

  abbrev pub fits : Report C N D T G H X → Bool
  fits r = leb (serialized_len r) m.max_body_bytes

  -- The first loop, on fuel.
  unfoldable pub shrink_loop : ℕ → Minima → Report C N D T G H X → Option (Report C N D T G H X)
  shrink_loop zero k r = none
  shrink_loop (suc n) k r = elim (fits r || removable k r == 0) [
    | true ↦ some r
    | false ↦ shrink_loop n k (shrink_collections k r)
  ]

  -- The report without one more reading, if there is one to take.
  unfoldable pub remove_last_optional : ℕ → Report C N D T G H X → Option (Report C N D T G H X)
  remove_last_optional capability_minimum r =
      if not (is_empty r.temperatures)
      then some (record r { temperatures = pop r.temperatures })
      else if not (is_empty r.disks)
      then some (record r { disks = pop r.disks })
      else if not (is_empty r.networks)
      then some (record r { networks = pop r.networks })
      else if not (is_empty r.gpus)
      then some (record r { gpus = pop r.gpus })
      else if ltb capability_minimum (length r.capabilities)
      then some (record r { capabilities = pop r.capabilities })
      else none

  -- The second loop, on fuel.
  unfoldable pub remove_loop : ℕ → ℕ → Report C N D T G H X → Option (Report C N D T G H X)
  remove_loop zero k r = none
  remove_loop (suc n) k r = elim (fits r) [
    | true ↦ some r
    | false ↦ elim (remove_last_optional k r) [ none ↦ some r | some r' ↦ remove_loop n k r' ]
  ]

  abbrev is_truncation : List C → Bool
  is_truncation [] = false
  is_truncation (c ∷ cs) = text_eq (m.capability_name c) truncated_capability

  unfoldable pub capability_minimum_of : Report C N D T G H X → ℕ
  capability_minimum_of r = if is_truncation r.capabilities then 1 else 0

  abbrev without_hardware : Report C N D T G H X → Report C N D T G H X
  without_hardware r = if fits r then r else record r { hardware = none }

  abbrev then_remove : ℕ → ℕ → Option (Report C N D T G H X) → Option (Report C N D T G H X)
  then_remove n k none = none
  then_remove n k (some r) = remove_loop n k r

  -- `fit_body`, with the minima of the four collections of readings.
  unfoldable pub fit_body : ℕ → ℕ → ℕ → ℕ → ℕ → Report C N D T G H X → Option (Report C N D T G H X)
  fit_body n network_minimum disk_minimum temperature_minimum gpu_minimum report =
      let r = without_hardware report in
      let k = capability_minimum_of r in
      then_remove n k (
        shrink_loop n
          (record {
            capability_minimum = k;
            network_minimum = network_minimum;
            disk_minimum = disk_minimum;
            temperature_minimum = temperature_minimum;
            gpu_minimum = gpu_minimum;
          })
          r)
