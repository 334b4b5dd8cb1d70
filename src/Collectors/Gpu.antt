-- ===== src/Collectors/Gpu.antt =====
-- src/collectors/gpu_merge.rs, and `push_bounded` of src/collectors/mod.rs: the merging of two readings of the
-- graphics adapters.
pub mod Merged
use host_monitoring_client.Common.{
  ℕ, zero, suc, ◌+◌, ◌≡◌, Bool, true, false, ◌&&◌, ◌||◌, not, Option, none, some, List, [], ◌∷◌,
  ◌++◌, ◌==◌, leb, ltb, if◌then◌else◌, length, all,
}
use host_monitoring_client.Common.Text.{Text, text_eq, codes, is_digit, strip_prefix}

-- `GpuSnapshot`; F is the type of the measures.
pub record GpuSnapshot (F : Type 0) : Type 0 where
  pub id : Text
  pub vendor : Text
  pub name : Text
  pub memory_total_bytes : Option ℕ
  pub memory_used_bytes : Option ℕ
  pub utilization_percent : Option F
  pub temperature_celsius : Option F
  pub power_watts : Option F
  pub core_clock_mhz : Option F
  pub memory_clock_mhz : Option F
  pub pcie_rx_bytes_per_second : Option F
  pub pcie_tx_bytes_per_second : Option F
  pub source : Text

abbrev is_hexdigit : ℕ → Bool
is_hexdigit c = is_digit c || (leb b'a' c && leb c b'f') || (leb b'A' c && leb c b'F')

abbrev is_half : Text → Bool
is_half part = length part == 8 && all is_hexdigit part

-- The two halves around the first underscore.
abbrev halves : Text → Text → Bool
halves high [] = false
halves high (c ∷ t) =
    let rest = halves (high ++ (c ∷ [])) t in if c == b'_' then is_half high && is_half t else rest

abbrev is_luid_value : Option Text → Bool
is_luid_value none = false
is_luid_value (some value) = halves [] value

unfoldable pub is_luid : Text → Bool
is_luid id = is_luid_value (strip_prefix (codes "luid_") id)

abbrev is_some : {A : Type 0} → Option A → Bool
is_some none = false
is_some (some a) = true

-- `Option::or`.
abbrev or : {A : Type 0} → Option A → Option A → Option A
or none b = b
or (some a) b = some a

abbrev same_number : Option ℕ → Option ℕ → Bool
same_number none none = true
same_number none (some b) = false
same_number (some a) none = false
same_number (some a) (some b) = a == b

abbrev pub over : Option ℕ → Option ℕ → Bool
over none total = false
over (some used) none = false
over (some used) (some total) = ltb total used

module _ {F : Type 0} where
  -- `supplement_memory`: the answer and the adapter after it.
  unfoldable pub supplement_memory : GpuSnapshot F → GpuSnapshot F → Bool × GpuSnapshot F
  supplement_memory primary fallback =
      let fills_used =
        not (is_some primary.memory_used_bytes) && is_some fallback.memory_used_bytes in
      let fills_total =
        not (is_some primary.memory_total_bytes) && is_some fallback.memory_total_bytes in
      let total = or primary.memory_total_bytes fallback.memory_total_bytes in
      let used = or primary.memory_used_bytes fallback.memory_used_bytes in
      let different_capacity =
        fills_used
        && (is_some primary.memory_total_bytes
            && not (same_number primary.memory_total_bytes fallback.memory_total_bytes)) in
      if not fills_used && not fills_total
      then (true, primary)
      else if different_capacity || over used total
      then (false, primary)
      else (true, record primary { memory_total_bytes = total; memory_used_bytes = used })

  -- The `supplement!` macro and the new source.
  unfoldable pub supplement : GpuSnapshot F → GpuSnapshot F → GpuSnapshot F
  supplement primary gpu = record primary {
    utilization_percent = or primary.utilization_percent gpu.utilization_percent;
    temperature_celsius = or primary.temperature_celsius gpu.temperature_celsius;
    power_watts = or primary.power_watts gpu.power_watts;
    core_clock_mhz = or primary.core_clock_mhz gpu.core_clock_mhz;
    memory_clock_mhz = or primary.memory_clock_mhz gpu.memory_clock_mhz;
    pcie_rx_bytes_per_second = or primary.pcie_rx_bytes_per_second gpu.pcie_rx_bytes_per_second;
    pcie_tx_bytes_per_second = or primary.pcie_tx_bytes_per_second gpu.pcie_tx_bytes_per_second;
    source = codes "nvml+windows-dxgi-pdh";
  }

-- `producer_collection_limit` and `push_bounded`; `usize_max` is the largest `usize`.
unfoldable pub producer_collection_limit : ℕ → ℕ → ℕ
producer_collection_limit usize_max maximum =
    if ltb usize_max (maximum + 1) then maximum else maximum + 1

unfoldable pub push_bounded : {A : Type 0} → ℕ → List A → A → ℕ → List A × Bool
push_bounded usize_max values value maximum =
    if leb (producer_collection_limit usize_max maximum) (length values)
    then (values, false)
    else (values ++ (value ∷ []), true)

abbrev is_luid_of : Text → Option Text → Bool
is_luid_of id none = false
is_luid_of id (some luid) = text_eq luid id

-- The places of an identity among the first luids.
abbrev places : ℕ → ℕ → List (Option Text) → Text → List ℕ
places index zero luids id = []
places index (suc n) [] id = []
places index (suc n) (luid ∷ luids) id =
    let rest = places (suc index) n luids id in if is_luid_of id luid then index ∷ rest else rest

abbrev update_at : {A : Type 0} → ℕ → (A → A) → List A → List A
update_at n f [] = []
update_at zero f (x ∷ xs) = f x ∷ xs
update_at (suc n) f (x ∷ xs) = x ∷ update_at n f xs

-- How often a luid stands among the luids.
abbrev occurrences : Text → List (Option Text) → ℕ
occurrences id [] = 0
occurrences id (luid ∷ luids) =
    if is_luid_of id luid then suc (occurrences id luids) else occurrences id luids

abbrev all_proven : List (Option Text) → List (Option Text) → Bool
all_proven luids [] = true
all_proven luids (none ∷ rest) = false
all_proven luids (some luid ∷ rest) =
    is_luid luid && occurrences luid luids == 1 && all_proven luids rest

-- The list that is merged into, and the two counts of the diagnosis.
pub record Merging (F : Type 0) : Type 0 where
  pub gpus : List (GpuSnapshot F)
  pub withheld : ℕ
  pub incompatible_memory : ℕ

-- The limits of the list: the largest `usize`, and `CLIENT_REPORT_MAX_GPUS`.
pub record Limits : Type 0 where
  pub usize_max : ℕ
  pub max_gpus : ℕ

module _ {F : Type 0} where
  abbrev is_nvidia : GpuSnapshot F → Bool
  is_nvidia gpu = text_eq gpu.vendor (codes "nvidia")

  abbrev same_adapters : Text → List (GpuSnapshot F) → ℕ
  same_adapters id [] = 0
  same_adapters id (g ∷ gs) =
      if is_nvidia g && text_eq g.id id then suc (same_adapters id gs) else same_adapters id gs

  abbrev supplemented : GpuSnapshot F → GpuSnapshot F → GpuSnapshot F
  supplemented gpu primary = supplement ((supplement_memory primary gpu).1) gpu

  -- 1 if the memory of the adapter at the place cannot be supplemented.
  abbrev incompatible_at : ℕ → GpuSnapshot F → List (GpuSnapshot F) → ℕ
  incompatible_at n gpu [] = 0
  incompatible_at zero gpu (x ∷ xs) = if (supplement_memory x gpu).0 then 0 else 1
  incompatible_at (suc n) gpu (x ∷ xs) = incompatible_at n gpu xs

  module _ (limits : Limits) where
    abbrev pub pushed : GpuSnapshot F → Merging F → Merging F
    pushed gpu s = record s { gpus = (push_bounded limits.usize_max s.gpus gpu limits.max_gpus).0 }

    abbrev kept_back : Merging F → Merging F
    kept_back s = record s { withheld = suc s.withheld }

    -- The branches for an NVIDIA adapter by the places of its luid.
    abbrev pub placed : Bool → Bool → GpuSnapshot F → List ℕ → Merging F → Merging F
    placed all_identified proven gpu [] s =
        if all_identified && proven then pushed gpu s else kept_back s
    placed all_identified proven gpu (index ∷ []) s =
        if proven
        then record s {
          gpus = update_at index (supplemented gpu) s.gpus;
          incompatible_memory = s.incompatible_memory + incompatible_at index gpu s.gpus;
        }
        else kept_back s
    placed all_identified proven gpu (index ∷ next ∷ more) s = kept_back s

    -- One pass of the loop of `merge_windows`.
    unfoldable pub merge_one :
        ℕ → List (Option Text) → Bool → List (GpuSnapshot F) → GpuSnapshot F → Merging F → Merging F
    merge_one nvml_count luids all_identified generic gpu s =
        if not (is_nvidia gpu) || nvml_count == 0
        then pushed gpu s
        else placed all_identified (is_luid gpu.id && same_adapters gpu.id generic == 1) gpu
            (places 0 nvml_count luids gpu.id) s

    abbrev pub merge_all :
        ℕ
        → List (Option Text)
        → Bool
        → List (GpuSnapshot F)
        → List (GpuSnapshot F)
        → Merging F
        → Merging F
    merge_all nvml_count luids all_identified generic [] s = s
    merge_all nvml_count luids all_identified generic (gpu ∷ gs) s =
        merge_all nvml_count luids all_identified generic gs
          (merge_one nvml_count luids all_identified generic gpu s)

    -- The name of the capability that reports what was left out.
    abbrev diagnosis : Merging F → Option Text
    diagnosis s =
        if ltb 0 s.withheld
        then some (codes "gpu.nvidia.identity")
        else if ltb 0 s.incompatible_memory
        then some (codes "gpu.nvidia.memory")
        else none

    unfoldable pub merge_windows :
        List (GpuSnapshot F)
        → List (GpuSnapshot F)
        → List (Option Text)
        → List (GpuSnapshot F) × Option Text
    unfolding merge_one
    merge_windows gpus generic luids =
        let all_identified = length luids == length gpus && all_proven luids luids in
        let s =
          merge_all (length gpus) luids all_identified generic generic
            (record { gpus = gpus; withheld = 0; incompatible_memory = 0 }) in
        (s.gpus, diagnosis s)
