-- ===== src/ReportContract.antt =====
-- src/report_contract.rs: the bounds that a report is brought to before it is encoded.
pub mod Bounds
pub mod Fit
use host_monitoring_client.Common.{
  ℕ, zero, suc, ◌-◌, ◌+◌, Bool, true, false, ◌&&◌, ◌||◌, not, Option, none, some, List, [], ◌∷◌,
  ◌==◌, leb, ltb, if◌then◌else◌, length,
}
use host_monitoring_client.Common.Text.{Text, text_eq, len_utf8, byte_len, trim, is_control}

-- `str::is_char_boundary`.
unfoldable pub is_char_boundary : Text → ℕ → Bool
is_char_boundary t zero = true
is_char_boundary [] (suc n) = false
is_char_boundary (c ∷ t) (suc n) =
    let rest = is_char_boundary t (suc n - len_utf8 c) in
    if ltb (suc n) (len_utf8 c) then false else rest

-- `String::truncate`: the characters of the first bytes.
unfoldable pub take_bytes : ℕ → Text → Text
take_bytes n [] = []
take_bytes n (c ∷ t) =
    let rest = take_bytes (n - len_utf8 c) t in if leb (len_utf8 c) n then c ∷ rest else []

-- The loop of `truncate_utf8`.
unfoldable pub boundary_before : Text → ℕ → ℕ
boundary_before t zero = zero
boundary_before t (suc n) =
    let rest = boundary_before t n in if is_char_boundary t (suc n) then suc n else rest

unfoldable pub truncate_utf8 : Text → ℕ → Text
truncate_utf8 value maximum =
    if leb (byte_len value) maximum then value else take_bytes (boundary_before value maximum) value

unfoldable pub retain : (ℕ → Bool) → Text → Text
retain keep [] = []
retain keep (c ∷ t) = let rest = retain keep t in if keep c then c ∷ rest else rest

unfoldable pub strip_controls_and_truncate : Text → ℕ → Text
strip_controls_and_truncate value maximum =
    truncate_utf8 (retain (λ c. not (is_control c)) value) maximum

abbrev pub is_blank : Text → Bool
is_blank value = text_eq (trim value) []

-- The text after the call and the answer, if it has changed.
abbrev changed_from : Text → Text → Text × Bool
changed_from original value = (value, not (text_eq value original))

unfoldable pub bound_required_text : Text → ℕ → Text → Text × Bool
bound_required_text value maximum fallback =
    let stripped = strip_controls_and_truncate value maximum in
    changed_from value (if is_blank stripped then truncate_utf8 fallback maximum else stripped)

unfoldable pub bound_descriptive_text : Text → ℕ → Text × Bool
bound_descriptive_text value maximum =
    changed_from value (strip_controls_and_truncate value maximum)

unfoldable pub bound_optional_text : Option Text → ℕ → Option Text × Bool
unfolding bound_descriptive_text
bound_optional_text none maximum = (none, false)
bound_optional_text (some value) maximum =
    let after = bound_descriptive_text value maximum in (some (after.0), after.1)

unfoldable pub bound_optional_nonempty_text : Option Text → ℕ → Option Text × Bool
bound_optional_nonempty_text none maximum = (none, false)
bound_optional_nonempty_text (some value) maximum =
    let stripped = strip_controls_and_truncate value maximum in
    if is_blank stripped then (none, true) else (some stripped, not (text_eq stripped value))

-- `truncate` of a collection.
unfoldable pub take : {A : Type 0} → ℕ → List A → List A
take zero xs = []
take (suc n) [] = []
take (suc n) (x ∷ xs) = x ∷ take n xs

unfoldable pub truncate : {A : Type 0} → List A → ℕ → List A × Bool
truncate values maximum =
    if leb (length values) maximum then (values, false) else (take maximum values, true)
