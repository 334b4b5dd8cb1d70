-- ===== src/ReportContract/Bounds.antt =====
-- The texts of a bounded report: their length, their characters, and that bounding them again changes nothing.
use host_monitoring_client.Common.{
  ℕ, zero, suc, ◌≡◌, refl, sym, ap, subst, ◌∙◌, arith, ◌+◌, ◌-◌, ◌≤◌, ◌<◌, Bool, true, false, not,
  [], ◌∷◌, ◌++◌, leb, ltb, ◌⊎◌, inl, inr, Bool-cases, all, le→leb,
}
use host_monitoring_client.Common.Text.{Text, text_eq_refl, len_utf8, byte_len, is_control}
use host_monitoring_client.ReportContract.{
  is_char_boundary, take_bytes, boundary_before, truncate_utf8, retain, strip_controls_and_truncate,
  is_blank, bound_required_text,
}

len_utf8_pos : (c : ℕ) → 0 < len_utf8 c
unfolding len_utf8
len_utf8_pos c = ground arith

is_char_boundary-zero : (t : Text) → is_char_boundary t zero ≡ true
unfolding is_char_boundary
is_char_boundary-zero t = refl

suc_of_inside : (t : Text) (k : ℕ) → is_char_boundary t k ≡ false → (m : ℕ) × (k ≡ suc m)
suc_of_inside t zero h = ground (arith, is_char_boundary-zero t)
suc_of_inside t (suc m) h = (m, refl)

-- Between two boundaries there is no further character.
take_bytes-inside :
    (t : Text) (n : ℕ) → is_char_boundary t (suc n) ≡ false → take_bytes (suc n) t ≡ take_bytes n t
unfolding is_char_boundary take_bytes
take_bytes-inside [] n h = refl
take_bytes-inside (c ∷ t) n h = elim (Bool-cases (ltb (suc n) (len_utf8 c))) [
  | inl short ↦
      let a : leb (len_utf8 c) (suc n) ≡ false = ground arith in
      let b : leb (len_utf8 c) n ≡ false = ground arith in rw (a, b)
  | inr long ↦
      let inside : is_char_boundary t (suc n - len_utf8 c) ≡ false = ground arith in
      let (m, e) = suc_of_inside t (suc n - len_utf8 c) inside in
      let a : leb (len_utf8 c) (suc n) ≡ true = ground arith in
      let b : leb (len_utf8 c) n ≡ true = le→leb (len_utf8 c) n (omega (arith, e)) in
      let d : n - len_utf8 c ≡ m = omega (arith, e) in
      rw (a, b, e, d)
        (ap (λ r. c ∷ r)
          (take_bytes-inside t m (subst (λ k. is_char_boundary t k ≡ false) e inside)))
]

take_bytes-boundary_before :
    (t : Text) (n : ℕ) → take_bytes (boundary_before t n) t ≡ take_bytes n t
unfolding boundary_before
take_bytes-boundary_before t zero = refl
take_bytes-boundary_before t (suc n) = elim (Bool-cases (is_char_boundary t (suc n))) [
  | inl b ↦ rw (boundary_before, b) refl
  | inr b ↦ rw (boundary_before, b) (take_bytes-boundary_before t n ∙ sym (take_bytes-inside t n b))
]

take_bytes-all : (t : Text) (n : ℕ) → byte_len t ≤ n → take_bytes n t ≡ t
unfolding take_bytes byte_len
take_bytes-all [] n h = refl
take_bytes-all (c ∷ t) n h =
    let fits : leb (len_utf8 c) n ≡ true = ground arith in
    rw fits (ap (λ r. c ∷ r) (take_bytes-all t (n - len_utf8 c) (omega (arith, h))))

-- The loop finds the longest prefix.
truncate_utf8-take_bytes : (t : Text) (n : ℕ) → truncate_utf8 t n ≡ take_bytes n t
unfolding truncate_utf8
truncate_utf8-take_bytes t n = elim (Bool-cases (leb (byte_len t) n)) [
  | inl b ↦ rw b (sym (take_bytes-all t n (ground arith)))
  | inr b ↦ rw b (take_bytes-boundary_before t n)
]

-- A prefix within the limit that no further character fits.
abbrev pub Longest : Text → ℕ → Text → Type 0
Longest t n prefix =
    (byte_len prefix ≤ n)
    × ((t ≡ prefix)
        ⊎ ((c : ℕ) × (rest : Text) × (t ≡ prefix ++ (c ∷ rest))
            × (n < byte_len prefix + len_utf8 c)))

take_bytes-Longest : (t : Text) (n : ℕ) → Longest t n (take_bytes n t)
unfolding take_bytes byte_len
take_bytes-Longest [] n = (omega arith, inl refl)
take_bytes-Longest (c ∷ t) n = elim (Bool-cases (leb (len_utf8 c) n)) [
  | inl b ↦
      let (short, end) = take_bytes-Longest t (n - len_utf8 c) in
      rw b (
        ground arith,
        elim end [
          | inl e ↦ inl (ap (λ r. c ∷ r) e)
          | inr (d, rest, e, over) ↦ inr (d, rest, ap (λ r. c ∷ r) e, ground arith)
        ],
      )
  | inr b ↦ rw b (omega arith, inr (c, t, refl, ground arith))
]

-- A text is cut to its longest prefix of whole characters within the limit of bytes.
pub truncate_utf8-Longest :
    (value : Text) (maximum : ℕ) → Longest value maximum (truncate_utf8 value maximum)
truncate_utf8-Longest value maximum =
    subst (λ t. Longest value maximum t) (sym (truncate_utf8-take_bytes value maximum))
      (take_bytes-Longest value maximum)

abbrev pub plain : ℕ → Bool
plain c = not (is_control c)

retain-plain : (t : Text) → all plain (retain plain t) ≡ true
unfolding retain
retain-plain [] = refl
retain-plain (c ∷ t) = elim (Bool-cases (plain c)) [
  | inl b ↦ rw (b, b) (retain-plain t)
  | inr b ↦ rw b (retain-plain t)
]

retain-plain_same : (t : Text) → all plain t ≡ true → retain plain t ≡ t
unfolding retain
retain-plain_same [] h = refl
retain-plain_same (c ∷ t) h =
    let first : plain c ≡ true = ground arith in
    rw first (ap (λ r. c ∷ r) (retain-plain_same t (ground arith)))

take_bytes-plain : (n : ℕ) (t : Text) → all plain t ≡ true → all plain (take_bytes n t) ≡ true
unfolding take_bytes
take_bytes-plain n [] h = refl
take_bytes-plain n (c ∷ t) h =
    let first : plain c ≡ true = ground arith in
    let rest : all plain (take_bytes (n - len_utf8 c) t) ≡ true =
      take_bytes-plain (n - len_utf8 c) t (ground arith) in
    elim (Bool-cases (leb (len_utf8 c) n)) [ inl b ↦ rw (b, first) rest | inr b ↦ rw b ]

truncate_utf8-plain : (t : Text) (n : ℕ) → all plain t ≡ true → all plain (truncate_utf8 t n) ≡ true
truncate_utf8-plain t n h = rw (truncate_utf8-take_bytes t n) (take_bytes-plain n t h)

truncate_utf8-short : (t : Text) (n : ℕ) → byte_len (truncate_utf8 t n) ≤ n
truncate_utf8-short t n = (truncate_utf8-Longest t n).0

-- A text that a report may hold.
abbrev pub Bounded : ℕ → Text → Type 0
Bounded maximum t = (byte_len t ≤ maximum) × (all plain t ≡ true)

strip-Bounded : (t : Text) (n : ℕ) → Bounded n (strip_controls_and_truncate t n)
unfolding strip_controls_and_truncate
strip-Bounded t n = (
  truncate_utf8-short (retain plain t) n,
  truncate_utf8-plain (retain plain t) n (retain-plain t),
)

strip_same : (t : Text) (n : ℕ) → Bounded n t → strip_controls_and_truncate t n ≡ t
unfolding strip_controls_and_truncate
strip_same t n (short, h) =
    ap (λ r. truncate_utf8 r n) (retain-plain_same t h)
    ∙ truncate_utf8-take_bytes t n
    ∙ take_bytes-all t n short

-- A required text ends within its bytes and without control characters, and bounding it again changes
-- nothing and says so, if the fallback has no control characters.
pub bound_required_text-Bounded :
    (value : Text) (maximum : ℕ) (fallback : Text)
    → all plain fallback ≡ true
    → Bounded maximum ((bound_required_text value maximum fallback).0)
      × (bound_required_text ((bound_required_text value maximum fallback).0) maximum fallback
          ≡ ((bound_required_text value maximum fallback).0, false))
unfolding bound_required_text
bound_required_text-Bounded value maximum fallback h =
    let stripped = strip_controls_and_truncate value maximum in
    let kept = strip-Bounded value maximum in
    let cut = truncate_utf8 fallback maximum in
    let cut_kept : Bounded maximum cut =
      (truncate_utf8-short fallback maximum, truncate_utf8-plain fallback maximum h) in
    let same = strip_same cut maximum cut_kept in
    let again : (bound_required_text cut maximum fallback) ≡ (cut, false) =
      elim (Bool-cases (is_blank cut)) [
        | inl b ↦ rw (same, b, text_eq_refl cut)
        | inr b ↦ rw (same, b, text_eq_refl cut)
      ] in
    elim (Bool-cases (is_blank stripped)) [
      | inl b ↦ rw b (cut_kept, again)
      | inr b ↦ rw b (kept, rw (strip_same stripped maximum kept, b, text_eq_refl stripped))
    ]
