-- ===== src/Collectors/Gpu/Merged.antt =====
-- What merging keeps: the adapters of the first reading, the limit of the list, and consistent memory sizes.
use host_monitoring_client.Common.{
  ℕ, zero, suc, ◌≡◌, refl, sym, ap, ◌∙◌, arith, ◌≤◌, max, Bool, true, false, ◌&&◌, ◌||◌, not,
  Option, none, List, [], ◌∷◌, ◌++◌, map, ◌==◌, leb, length, length-append, ◌⊎◌, inl, inr,
  Bool-cases,
}
use mathlib.Core.List.{append_assoc, append-nil}
use host_monitoring_client.Common.Text.{Text}
use host_monitoring_client.Collectors.Gpu.{
  GpuSnapshot, Merging, Limits, supplement_memory, supplement, supplemented, over, push_bounded,
  producer_collection_limit, update_at, pushed, placed, merge_one, merge_all, merge_windows,
  all_proven, is_nvidia, places, is_luid, same_adapters,
}

module _ {F : Type 0} where
  abbrev pub ids : List (GpuSnapshot F) → List Text
  ids gpus = map (λ g. GpuSnapshot.id g) gpus

  id-supplement_memory :
      (primary fallback : GpuSnapshot F)
      → GpuSnapshot.id ((supplement_memory primary fallback).1) ≡ primary.id
  unfolding supplement_memory
  id-supplement_memory primary fallback = ground arith

  -- Supplementing the memory of an adapter never replaces a size that it has, and if it changes anything then
  -- the memory in use does not exceed the total.
  pub supplement_memory_consistent :
      (primary fallback : GpuSnapshot F)
      → (((supplement_memory primary fallback).1 ≡ primary)
          ⊎ (over
                (GpuSnapshot.memory_used_bytes ((supplement_memory primary fallback).1))
                (GpuSnapshot.memory_total_bytes ((supplement_memory primary fallback).1))
              ≡ false))
        × ((primary.memory_used_bytes ≡ none)
            ⊎ (GpuSnapshot.memory_used_bytes ((supplement_memory primary fallback).1)
                ≡ primary.memory_used_bytes))
        × ((primary.memory_total_bytes ≡ none)
            ⊎ (GpuSnapshot.memory_total_bytes ((supplement_memory primary fallback).1)
                ≡ primary.memory_total_bytes))
  unfolding supplement_memory
  supplement_memory_consistent primary fallback = (ground arith, ground arith, ground arith)

  ids-update_at :
      (n : ℕ) (gpu : GpuSnapshot F) (xs : List (GpuSnapshot F))
      → ids (update_at n (supplemented gpu) xs) ≡ ids xs
  unfolding supplement
  ids-update_at n gpu [] = refl
  ids-update_at zero gpu (x ∷ xs) = ap (λ i. i ∷ ids xs) (id-supplement_memory x gpu)
  ids-update_at (suc n) gpu (x ∷ xs) = ap (λ t. x.id ∷ t) (ids-update_at n gpu xs)

  length-ids : (xs : List (GpuSnapshot F)) → length (ids xs) ≡ length xs
  length-ids [] = refl
  length-ids (x ∷ xs) = ap suc (length-ids xs)

  length-update_at :
      (n : ℕ) (f : GpuSnapshot F → GpuSnapshot F) (xs : List (GpuSnapshot F))
      → length (update_at n f xs) ≡ length xs
  length-update_at n f [] = refl
  length-update_at zero f (x ∷ xs) = refl
  length-update_at (suc n) f (x ∷ xs) = ap suc (length-update_at n f xs)

  ids-append : (xs ys : List (GpuSnapshot F)) → ids (xs ++ ys) ≡ ids xs ++ ids ys
  ids-append [] ys = refl
  ids-append (x ∷ xs) ys = ap (λ t. x.id ∷ t) (ids-append xs ys)

  module _ (limits : Limits) (first : List (GpuSnapshot F)) where
    abbrev room : ℕ
    room = producer_collection_limit limits.usize_max limits.max_gpus

    -- The adapters of the first reading come first, in their order, and no more than the limit are added.
    abbrev pub Extends : List (GpuSnapshot F) → Type 0
    Extends gpus =
        ((extra : List Text) × (ids gpus ≡ ids first ++ extra))
        × (length gpus ≤ max (length first) room)

    pushed-Extends :
        (gpu : GpuSnapshot F) (s : Merging F)
        → Extends s.gpus
        → Extends (Merging.gpus (pushed limits gpu s))
    unfolding push_bounded
    pushed-Extends gpu s ((extra, e), h) = elim (Bool-cases (leb room (length s.gpus))) [
      | inl b ↦ rw b ((extra, e), h)
      | inr b ↦ rw b (
        (
          extra ++ (gpu.id ∷ []),
          ids-append s.gpus (gpu ∷ [])
              ∙ ap (λ t. t ++ (gpu.id ∷ [])) e
              ∙ append_assoc (ids first) extra (gpu.id ∷ []),
        ),
        ground (arith, length-append s.gpus (gpu ∷ [])),
      )
    ]

    placed-Extends :
        (all_identified proven : Bool) (gpu : GpuSnapshot F) (at : List ℕ) (s : Merging F)
        → Extends s.gpus
        → Extends (Merging.gpus (placed limits all_identified proven gpu at s))
    placed-Extends all_identified proven gpu [] s h = elim (Bool-cases (all_identified && proven)) [
      | inl b ↦ rw b (pushed-Extends gpu s h)
      | inr b ↦ rw b h
    ]
    placed-Extends all_identified true gpu (index ∷ []) s ((extra, e), h) = (
      (extra, ids-update_at index gpu s.gpus ∙ e),
      rw (length-update_at index (supplemented gpu) s.gpus) h,
    )
    placed-Extends all_identified false gpu (index ∷ []) s h = h
    placed-Extends all_identified proven gpu (index ∷ next ∷ more) s h = h

    merge_one-Extends :
        (nvml_count : ℕ) (luids : List (Option Text)) (all_identified : Bool)
        (generic : List (GpuSnapshot F)) (gpu : GpuSnapshot F) (s : Merging F)
        → Extends s.gpus
        → Extends (Merging.gpus (merge_one limits nvml_count luids all_identified generic gpu s))
    unfolding merge_one
    merge_one-Extends nvml_count luids all_identified generic gpu s h =
        elim (Bool-cases (not (is_nvidia gpu) || nvml_count == 0)) [
          | inl b ↦ rw b (pushed-Extends gpu s h)
          | inr b ↦ rw b (
              placed-Extends all_identified (is_luid gpu.id && same_adapters gpu.id generic == 1)
                gpu (places 0 nvml_count luids gpu.id) s h)
        ]

    merge_all-Extends :
        (nvml_count : ℕ) (luids : List (Option Text)) (all_identified : Bool)
        (generic gs : List (GpuSnapshot F)) (s : Merging F)
        → Extends s.gpus
        → Extends (Merging.gpus (merge_all limits nvml_count luids all_identified generic gs s))
    merge_all-Extends nvml_count luids all_identified generic [] s h = h
    merge_all-Extends nvml_count luids all_identified generic (gpu ∷ gs) s h =
        merge_all-Extends nvml_count luids all_identified generic gs
          (merge_one limits nvml_count luids all_identified generic gpu s)
          (merge_one-Extends nvml_count luids all_identified generic gpu s h)

  -- Merging keeps every adapter of the first reading, in its order and under its id, before any other, and
  -- lets the list grow no further than one over the limit of a report.
  pub merge_windows-Extends :
      (limits : Limits) (gpus generic : List (GpuSnapshot F)) (luids : List (Option Text))
      → Extends limits gpus ((merge_windows limits gpus generic luids).0)
  unfolding merge_windows
  merge_windows-Extends limits gpus generic luids =
      merge_all-Extends limits gpus (length gpus) luids
        (length luids == length gpus && all_proven luids luids) generic generic
        (record { gpus = gpus; withheld = 0; incompatible_memory = 0 })
        (([], sym (append-nil (ids gpus))), omega arith)
