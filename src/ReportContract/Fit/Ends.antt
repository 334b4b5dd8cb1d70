-- ===== src/ReportContract/Fit/Ends.antt =====
-- `fit_body` comes to an end, within the body limit or with nothing left to take.
use host_monitoring_client.Common.{
  ℕ, zero, suc, ◌≡◌, refl, subst, ◌∙◌, arith, ◌-◌, ◌+◌, ◌≤◌, ◌<◌, max, true, ◌||◌, Option, none,
  some, ◌==◌, ltb, length, ◌⊎◌, inl, inr, Bool-cases, Option-cases,
}
use host_monitoring_client.ReportContract.Fit.{
  Measure, Report, Minima, is_empty, serialized_len, removable, shrink_collections, fits,
  shrink_loop, remove_last_optional, remove_loop, then_remove, capability_minimum_of, fit_body,
}
use host_monitoring_client.ReportContract.Fit.Prefix.{
  Prefix, Prefix_refl, Prefix_trans, shrink-Prefix, pop-Prefix, length-pop, over-shrink,
  length-pop_over, length_prefix, less_of_five,
}

module _ {C N D T G H X : Type 0} (m : Measure C N D T G H X) where
  -- Each collection is the beginning of what it was, and the rest is as it was.
  abbrev pub Within : Report C N D T G H X → Report C N D T G H X → Type 0
  Within r' r =
      Prefix r'.capabilities r.capabilities
      × Prefix r'.networks r.networks
      × Prefix r'.disks r.disks
      × Prefix r'.temperatures r.temperatures
      × Prefix r'.gpus r.gpus
      × (r'.rest ≡ r.rest)

  Within-refl : (r : Report C N D T G H X) → Within r r
  Within-refl r = (
    Prefix_refl r.capabilities,
    Prefix_refl r.networks,
    Prefix_refl r.disks,
    Prefix_refl r.temperatures,
    Prefix_refl r.gpus,
    refl,
  )

  Within-trans : (p q r : Report C N D T G H X) → Within p q → Within q r → Within p r
  Within-trans p q r (a, b, c, d, e, f) (a', b', c', d', e', f') = (
    Prefix_trans p.capabilities q.capabilities r.capabilities a a',
    Prefix_trans p.networks q.networks r.networks b b',
    Prefix_trans p.disks q.disks r.disks c c',
    Prefix_trans p.temperatures q.temperatures r.temperatures d d',
    Prefix_trans p.gpus q.gpus r.gpus e e',
    f ∙ f',
  )

  shrink_collections-Within :
      (k : Minima) (r : Report C N D T G H X) → Within (shrink_collections m k r) r
  unfolding shrink_collections
  shrink_collections-Within k r =
      let s = m.scaled (max (serialized_len m r) 1) in
      (
        shrink-Prefix s r.capabilities k.capability_minimum,
        shrink-Prefix s r.networks k.network_minimum,
        shrink-Prefix s r.disks k.disk_minimum,
        shrink-Prefix s r.temperatures k.temperature_minimum,
        shrink-Prefix s r.gpus k.gpu_minimum,
        refl,
      )

  removable-shrink_collections :
      (k : Minima) (r : Report C N D T G H X)
      → 0 < removable m k r
      → removable m k (shrink_collections m k r) < removable m k r
  unfolding shrink_collections removable
  removable-shrink_collections k r h =
      let s = m.scaled (max (serialized_len m r) 1) in
      less_of_five (length r.capabilities - k.capability_minimum)
        (length r.networks - k.network_minimum) (length r.disks - k.disk_minimum)
        (length r.temperatures - k.temperature_minimum) (length r.gpus - k.gpu_minimum) _ _ _ _ _
        (over-shrink s r.capabilities k.capability_minimum)
        (over-shrink s r.networks k.network_minimum) (over-shrink s r.disks k.disk_minimum)
        (over-shrink s r.temperatures k.temperature_minimum) (over-shrink s r.gpus k.gpu_minimum) h

  shrink_loop-Within :
      (n : ℕ) (k : Minima) (r : Report C N D T G H X)
      → removable m k r < n
      → (r' : Report C N D T G H X) × (shrink_loop m n k r ≡ some r') × Within r' r
  unfolding shrink_loop
  shrink_loop-Within zero k r h = ground arith
  shrink_loop-Within (suc n) k r h = elim (Bool-cases (fits m r || removable m k r == 0)) [
    | inl b ↦ rw (shrink_loop, b) (r, refl, Within-refl r)
    | inr b ↦
        let r₁ = shrink_collections m k r in
        let less = removable-shrink_collections k r (ground arith) in
        let (r', e, within) = shrink_loop-Within n k r₁ (omega (arith, less, h)) in
        rw (shrink_loop, b) (r', e, Within-trans r' r₁ r within (shrink_collections-Within k r))
  ]

  -- How many readings a report has.
  abbrev pub total : Report C N D T G H X → ℕ
  total r =
      length r.capabilities
      + length r.networks
      + length r.disks
      + length r.temperatures
      + length r.gpus

  -- Nothing is left that could be taken.
  abbrev pub Bare : ℕ → Report C N D T G H X → Type 0
  Bare k r =
      (is_empty r.temperatures ≡ true)
      × (is_empty r.disks ≡ true)
      × (is_empty r.networks ≡ true)
      × (is_empty r.gpus ≡ true)
      × (length r.capabilities ≤ k)

  -- One reading less, or nothing to take.
  abbrev Removed : ℕ → Report C N D T G H X → Option (Report C N D T G H X) → Type 0
  Removed k r none = Bare k r
  Removed k r (some r') = (suc (total r') ≡ total r) × Within r' r

  remove_last_optional-Removed :
      (k : ℕ) (r : Report C N D T G H X) → Removed k r (remove_last_optional m k r)
  unfolding remove_last_optional
  remove_last_optional-Removed k r =
      let (pc, pn, pd, pt, pg, e) = Within-refl r in
      elim (Bool-cases (is_empty r.temperatures)) [
        | inr b ↦ rw b (
          omega (arith, length-pop r.temperatures b),
          (pc, pn, pd, pop-Prefix r.temperatures, pg, e),
        )
        | inl t ↦ elim (Bool-cases (is_empty r.disks)) [
          | inr b ↦
              rw (t, b)
                (omega (arith, length-pop r.disks b), (pc, pn, pop-Prefix r.disks, pt, pg, e))
          | inl d ↦ elim (Bool-cases (is_empty r.networks)) [
            | inr b ↦
                rw (t, d, b)
                  (
                    omega (arith, length-pop r.networks b),
                    (pc, pop-Prefix r.networks, pd, pt, pg, e),
                  )
            | inl n ↦ elim (Bool-cases (is_empty r.gpus)) [
              | inr b ↦
                  rw (t, d, n, b)
                    (omega (arith, length-pop r.gpus b), (pc, pn, pd, pt, pop-Prefix r.gpus, e))
              | inl g ↦ elim (Bool-cases (ltb k (length r.capabilities))) [
                | inl c ↦
                    rw (t, d, n, g, c)
                      (
                        omega (arith, length-pop_over k r.capabilities c),
                        (pop-Prefix r.capabilities, pn, pd, pt, pg, e),
                      )
                | inr c ↦ rw (t, d, n, g, c) (t, d, n, g, ground arith)
              ]
            ]
          ]
        ]
      ]

  -- The report is within the limit, or has nothing left to take.
  abbrev pub Settled : ℕ → Report C N D T G H X → Type 0
  Settled k r = (serialized_len m r ≤ m.max_body_bytes) ⊎ Bare k r

  abbrev Finishes : ℕ → ℕ → Report C N D T G H X → Type 0
  Finishes n k r =
      (r' : Report C N D T G H X) × (remove_loop m n k r ≡ some r') × Within r' r × Settled k r'

  remove_loop-Settled : (n k : ℕ) (r : Report C N D T G H X) → total r < n → Finishes n k r
  unfolding remove_loop
  remove_loop-Settled zero k r h = ground arith
  remove_loop-Settled (suc n) k r h = elim (Bool-cases (fits m r)) [
    | inl b ↦ rw (remove_loop, b) (r, refl, Within-refl r, inl (ground arith))
    | inr b ↦ elim (Option-cases (remove_last_optional m k r)) [
      | inl e ↦
          rw (remove_loop, b, e)
            (
              r,
              refl,
              Within-refl r,
              inr (subst (λ o. Removed k r o) e (remove_last_optional-Removed k r)),
            )
      | inr (r₁, e) ↦
          let (less, within) = subst (λ o. Removed k r o) e (remove_last_optional-Removed k r) in
          let (r', ends, inside, settled) = remove_loop-Settled n k r₁ (omega (arith, less, h)) in
          rw (remove_loop, b, e) (r', ends, Within-trans r' r₁ r inside within, settled)
    ]
  ]

  total-Within : (r' r : Report C N D T G H X) → Within r' r → total r' ≤ total r
  total-Within r' r (a, b, c, d, e, f) = omega (
    arith,
    length_prefix r'.capabilities r.capabilities a,
    length_prefix r'.networks r.networks b,
    length_prefix r'.disks r.disks c,
    length_prefix r'.temperatures r.temperatures d,
    length_prefix r'.gpus r.gpus e,
  )

  removable-total : (k : Minima) (r : Report C N D T G H X) → removable m k r ≤ total r
  unfolding removable
  removable-total k r = omega arith

  fitted :
      (n k : ℕ) (minima : Minima) (r : Report C N D T G H X)
      → total r < n
      → (r' : Report C N D T G H X) × (then_remove m n k (shrink_loop m n minima r) ≡ some r')
        × Within r' r
        × Settled k r'
  fitted n k minima r h =
      let (r₁, e₁, within₁) =
        shrink_loop-Within n minima r (omega (arith, removable-total minima r, h)) in
      let (r', e, within, settled) =
        remove_loop-Settled n k r₁ (omega (arith, total-Within r₁ r within₁, h)) in
      rw e₁ (r', e, Within-trans r' r₁ r within within₁, settled)

  -- With fuel over the number of its readings, fitting a report comes to an end. Each collection of the result
  -- is the beginning of what it was, the fields outside the collections and the hardware part are as they were,
  -- and the JSON is within the body limit unless nothing is left to take but the truncation notice.
  pub fit_body-Settled :
      (n network_minimum disk_minimum temperature_minimum gpu_minimum : ℕ)
      (r : Report C N D T G H X)
      → total r < n
      → (r' : Report C N D T G H X) × (fit_body m n network_minimum disk_minimum temperature_minimum
            gpu_minimum r
          ≡ some r')
        × Within r' r
        × Settled (capability_minimum_of m r) r'
  unfolding fit_body capability_minimum_of
  fit_body-Settled n network_minimum disk_minimum temperature_minimum gpu_minimum r h =
      elim (Bool-cases (fits m r)) [
        | inl b ↦ rw b (fitted n _ _ r h)
        | inr b ↦ rw b (fitted n _ _ (record r { hardware = none }) h)
      ]
