-- ===== src/Collectors/PdhBuffer.antt =====
-- src/collectors/pdh_buffer.rs: the size of the buffer that a performance counter fills.
use host_monitoring_client.Common.{
  ℕ, zero, suc, ◌≡◌, arith, ◌+◌, ◌-◌, ◌*◌, ◌/◌, ◌^◌, ◌≤◌, ◌<◌, ◌==◌, ltb, if◌then◌else◌,
}
use native.Mathlib.Nat.{
  div-mul-le_self, lt-div-mul-add, le-div_iff_mul-le, le_of_mul-le-mul_right, mul-le-mul_right,
}

-- `MAX_PDH_ARRAY_BYTES`, `MAX_PDH_ARRAY_ITEMS`.
abbrev pub max_pdh_array_bytes : ℕ
max_pdh_array_bytes = 4 * 1024 * 1024

abbrev pub max_pdh_array_items : ℕ
max_pdh_array_items = 4096

pub record PdhBufferLayout : Type 0 where
  pub slots : ℕ
  pub capacity_bytes : ℕ

-- The messages of the two functions.
pub data PdhError : Type 0 where
  zero_item_size zero_required does_not_fit too_many_bytes too_many_items size_overflowed
        cannot_contain :
      PdhError
  rounding_overflowed capacity_overflowed capacity_too_large used_too_large : PdhError

pub data PdhResult (A : Type 0) : Type 0 where
  done : A → PdhResult A
  refused : PdhError → PdhResult A

-- `usize_max` is the largest `usize` of the platform.
module _ (usize_max : ℕ) where
  unfoldable pub plan_pdh_buffer : ℕ → ℕ → ℕ → PdhResult PdhBufferLayout
  plan_pdh_buffer required_bytes item_count item_size =
      let rounded = required_bytes + (item_size - 1) in
      let slots = rounded / item_size in
      let capacity_bytes = slots * item_size in
      if item_size == 0
      then refused zero_item_size
      else if ltb usize_max required_bytes
      then refused does_not_fit
      else if required_bytes == 0
      then refused zero_required
      else if ltb max_pdh_array_bytes required_bytes
      then refused too_many_bytes
      else if ltb usize_max item_count
      then refused does_not_fit
      else if ltb max_pdh_array_items item_count
      then refused too_many_items
      else if ltb usize_max (item_count * item_size)
      then refused size_overflowed
      else if ltb required_bytes (item_count * item_size)
      then refused cannot_contain
      else if ltb usize_max rounded
      then refused rounding_overflowed
      else if ltb usize_max capacity_bytes
      then refused capacity_overflowed
      else if ltb max_pdh_array_bytes capacity_bytes
      then refused capacity_too_large
      else if ltb (2 ^ 32 - 1) capacity_bytes
      then refused does_not_fit
      else done (record { slots = slots; capacity_bytes = capacity_bytes })

  unfoldable pub validate_pdh_result : ℕ → ℕ → ℕ → ℕ → PdhResult ℕ
  validate_pdh_result capacity_bytes used_bytes item_count item_size =
      if item_size == 0
      then refused zero_item_size
      else if ltb max_pdh_array_bytes capacity_bytes
      then refused capacity_too_large
      else if ltb usize_max used_bytes
      then refused does_not_fit
      else if ltb capacity_bytes used_bytes
      then refused used_too_large
      else if ltb usize_max item_count
      then refused does_not_fit
      else if ltb max_pdh_array_items item_count
      then refused too_many_items
      else if ltb usize_max (item_count * item_size)
      then refused size_overflowed
      else if ltb used_bytes (item_count * item_size)
      then refused cannot_contain
      else done item_count

  -- What a plan promises.
  abbrev pub Sized : ℕ → ℕ → ℕ → PdhBufferLayout → Type 0
  Sized required_bytes item_count item_size l =
      (l.capacity_bytes ≡ l.slots * item_size)
      × (required_bytes ≤ l.capacity_bytes)
      × (l.capacity_bytes < required_bytes + item_size)
      × (l.capacity_bytes ≤ max_pdh_array_bytes)
      × (item_count * item_size ≤ required_bytes)
      × (item_count ≤ max_pdh_array_items)
      × (0 < item_size)

  pub plan_pdh_buffer-Sized :
      (required_bytes item_count item_size : ℕ) (l : PdhBufferLayout)
      → plan_pdh_buffer required_bytes item_count item_size ≡ done l
      → Sized required_bytes item_count item_size l
  unfolding plan_pdh_buffer
  plan_pdh_buffer-Sized required_bytes item_count zero l h = ground arith
  plan_pdh_buffer-Sized required_bytes item_count (suc k) l h =
      let rounded = required_bytes + k in
      let low : rounded / suc k * suc k ≤ rounded = div-mul-le_self rounded (suc k) in
      let high : rounded < rounded / suc k * suc k + suc k = lt-div-mul-add (omega arith) in
      ground arith

  -- A reading that was accepted after a plan lies within the buffer that was planned: its items fit the slots
  -- and the bytes that were used, and those fit the capacity.
  pub validate_pdh_result_within :
      (required_bytes item_count item_size used_bytes read : ℕ) (l : PdhBufferLayout) (n : ℕ)
      → plan_pdh_buffer required_bytes item_count item_size ≡ done l
      → validate_pdh_result l.capacity_bytes used_bytes read item_size ≡ done n
      → (n ≡ read)
        × (n ≤ l.slots)
        × (n * item_size ≤ used_bytes)
        × (used_bytes ≤ l.capacity_bytes)
        × (l.capacity_bytes ≤ max_pdh_array_bytes)
  unfolding validate_pdh_result
  validate_pdh_result_within required_bytes item_count item_size used_bytes read l n planned valid =
      let (exact, a, b, c, d, e, positive) =
        plan_pdh_buffer-Sized required_bytes item_count item_size l planned in
      let items : (n ≡ read) × (n * item_size ≤ used_bytes) × (used_bytes ≤ l.capacity_bytes) =
        ground arith in
      let fits : n * item_size ≤ l.slots * item_size = omega (arith, items.1, items.2, exact) in
      (items.0, le_of_mul-le-mul_right fits positive, items.1, items.2, c)

  -- A plan exists for every request whose items fit its bytes, and whose bytes, rounded up to whole items,
  -- are within the limit, on a platform whose `usize` has at least 32 bits.
  pub plan_pdh_buffer_exists :
      (required_bytes item_count item_size : ℕ)
      → 2 ^ 32 - 1 ≤ usize_max
      → 0 < item_size
      → 0 < required_bytes
      → item_count ≤ max_pdh_array_items
      → item_count * item_size ≤ required_bytes
      → (required_bytes + (item_size - 1)) / item_size * item_size ≤ max_pdh_array_bytes
      → (l : PdhBufferLayout) × (plan_pdh_buffer required_bytes item_count item_size ≡ done l)
  unfolding plan_pdh_buffer
  plan_pdh_buffer_exists required_bytes item_count zero wide size positive count fits limit =
      ground arith
  plan_pdh_buffer_exists required_bytes item_count (suc k) wide size positive count fits limit =
      let rounded = required_bytes + k in
      let high : rounded < rounded / suc k * suc k + suc k = lt-div-mul-add (omega arith) in
      let low : rounded / suc k * suc k ≤ rounded = div-mul-le_self rounded (suc k) in
      let one : 1 ≤ rounded / suc k = (le-div_iff_mul-le (omega arith)).1 (omega arith) in
      let wide_item : 1 * suc k ≤ rounded / suc k * suc k = mul-le-mul_right (suc k) one in
      (record { slots = rounded / suc k; capacity_bytes = rounded / suc k * suc k }, ground arith)
