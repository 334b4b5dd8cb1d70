-- ===== src/ReportContract/Fit/Prefix.antt =====
-- The beginnings of a collection, and how much shrinking and popping take from it.
use host_monitoring_client.Common.{
  ℕ, zero, suc, ◌≡◌, refl, sym, ap, ◌∙◌, arith, ◌-◌, ◌+◌, ◌≤◌, ◌<◌, min, max, true, false, List, [],
  ◌∷◌, ◌++◌, leb, ltb, if◌then◌else◌, length, length-append, ◌⊎◌, inl, inr, Bool-cases,
}
use mathlib.Core.List.{append_assoc, append-nil}
use host_monitoring_client.ReportContract.{take}
use host_monitoring_client.ReportContract.Fit.{shrink, pop, is_empty}

-- The beginning of a collection.
abbrev pub Prefix : {A : Type 0} → List A → List A → Type 0
Prefix {A = A} xs ys = (zs : List A) × (ys ≡ xs ++ zs)

module _ {A : Type 0} where
  pub Prefix_refl : (xs : List A) → Prefix xs xs
  Prefix_refl xs = ([], sym (append-nil xs))

  pub Prefix_trans : (xs ys zs : List A) → Prefix xs ys → Prefix ys zs → Prefix xs zs
  Prefix_trans xs ys zs (us, a) (vs, b) =
      (us ++ vs, b ∙ ap (λ t. t ++ vs) a ∙ append_assoc xs us vs)

  pub take-Prefix : (n : ℕ) (xs : List A) → Prefix (take n xs) xs
  unfolding take
  take-Prefix zero xs = (xs, refl)
  take-Prefix (suc n) [] = ([], refl)
  take-Prefix (suc n) (x ∷ xs) = let (zs, e) = take-Prefix n xs in (zs, ap (λ t. x ∷ t) e)

  pub length-take : (n : ℕ) (xs : List A) → length (take n xs) ≡ min n (length xs)
  unfolding take
  length-take zero xs = omega arith
  length-take (suc n) [] = omega arith
  length-take (suc n) (x ∷ xs) = omega (arith, length-take n xs)

  pub shrink-Prefix : (s : ℕ → ℕ) (xs : List A) (k : ℕ) → Prefix (shrink s xs k) xs
  unfolding shrink
  shrink-Prefix s xs k = elim (Bool-cases (leb (length xs) k)) [
    | inl b ↦ rw b (Prefix_refl xs)
    | inr b ↦ rw b (take-Prefix _ xs)
  ]

  pub pop-Prefix : (xs : List A) → Prefix (pop xs) xs
  unfolding pop
  pop-Prefix xs = take-Prefix (length xs - 1) xs

  -- What is over the minimum becomes less, and the minimum is kept.
  pub length-shrink :
      (s : ℕ → ℕ) (xs : List A) (k : ℕ)
      → (length (shrink s xs k) ≤ length xs)
        × ((length xs ≤ k) ⊎ ((k ≤ length (shrink s xs k)) × (length (shrink s xs k) < length xs)))
  unfolding shrink
  length-shrink s xs k = elim (Bool-cases (leb (length xs) k)) [
    | inl b ↦ rw b (omega arith, inl (ground arith))
    | inr b ↦
        let target = max (s (length xs)) k in
        let size = length-take (if leb (length xs) target then length xs - 1 else target) xs in
        rw (b, size) (ground arith, inr (ground arith, ground arith))
  ]

  pub length-pop : (xs : List A) → is_empty xs ≡ false → suc (length (pop xs)) ≡ length xs
  unfolding pop
  length-pop [] h = ground arith
  length-pop (x ∷ xs) h = omega (arith, length-take (length (x ∷ xs) - 1) (x ∷ xs))

  pub over-shrink :
      (s : ℕ → ℕ) (xs : List A) (k : ℕ) → length (shrink s xs k) - k ≤ length xs - k - 1
  over-shrink s xs k = omega (arith, length-shrink s xs k)

  pub length-pop_over :
      (k : ℕ) (xs : List A) → ltb k (length xs) ≡ true → suc (length (pop xs)) ≡ length xs
  length-pop_over k [] h = ground arith
  length-pop_over k (x ∷ xs) h = length-pop (x ∷ xs) refl

  pub length_prefix : (xs ys : List A) → Prefix xs ys → length xs ≤ length ys
  length_prefix xs ys (zs, e) = omega (arith, ap length e, length-append xs zs)

pub less_of_five :
    (a b c d e a' b' c' d' e' : ℕ)
    → a' ≤ a - 1
    → b' ≤ b - 1
    → c' ≤ c - 1
    → d' ≤ d - 1
    → e' ≤ e - 1
    → 0 < a + b + c + d + e
    → a' + b' + c' + d' + e' < a + b + c + d + e
less_of_five a b c d e a' b' c' d' e' h₁ h₂ h₃ h₄ h₅ p = omega arith
