-- ===== src/Collectors/DiskRates/Kept.antt =====
-- The rates of src/collectors/disk_rates.rs over two readings.
use host_monitoring_client.Common.{
  ℕ, suc, ◌≡◌, refl, ap, arith, ◌-◌, ◌≤◌, true, false, ◌&&◌, some, List, [], ◌∷◌, leb,
  if◌then◌else◌, length, Bool-cases, inl, inr, ◌∙◌, ◌+◌, ◌++◌, map,
}
use host_monitoring_client.Common.Text.{text_eq→eq, text_eq_refl}
use mathlib.Core.List.{map-append}
use host_monitoring_client.Collectors.DiskRates.{
  DiskSnapshot, Identity, same_identity, Counters, get, insert, identity_of, counters_of, rated,
  update_loop, update, mentions,
}

length-insert : (id : Identity) (c : ℕ × ℕ) (m : Counters) → length (insert id c m) ≤ suc (length m)
unfolding insert
length-insert id c [] = omega arith
length-insert id c ((key, r, w) ∷ m) = elim (Bool-cases (same_identity key id)) [
  | inl b ↦ rw b (omega arith)
  | inr b ↦ rw b (omega (arith, length-insert id c m))
]

same_identity→eq : (a b : Identity) → same_identity a b ≡ true → a ≡ b
same_identity→eq (a, b, c) (a', b', c') h =
    let first = text_eq→eq a a' (ground arith) in
    let second = text_eq→eq b b' (ground arith) in
    let third = text_eq→eq c c' (ground arith) in rw (first, second, third)

same_identity_refl : (a : Identity) → same_identity a a ≡ true
same_identity_refl (a, b, c) = rw (text_eq_refl a, text_eq_refl b, text_eq_refl c)

get-insert : (id : Identity) (c : ℕ × ℕ) (m : Counters) → get (insert id c m) id ≡ some c
unfolding get insert
get-insert id (r, w) [] = rw (same_identity_refl id)
get-insert id (r, w) ((key, r', w') ∷ m) = elim (Bool-cases (same_identity key id)) [
  | inl b ↦ rw (b, same_identity_refl id)
  | inr b ↦ rw (b, b) (get-insert id (r, w) m)
]

get-insert_other :
    (id other : Identity) (c : ℕ × ℕ) (m : Counters)
    → same_identity id other ≡ false
    → get (insert id c m) other ≡ get m other
unfolding get insert
get-insert_other id other (r, w) [] h = rw h
get-insert_other id other (r, w) ((key, r', w') ∷ m) h = elim (Bool-cases (same_identity key id)) [
  | inl b ↦
      let same : same_identity key other ≡ false =
        ap (λ k. same_identity k other) (same_identity→eq key id b) ∙ h in
      rw (b, h, same)
  | inr b ↦ rw b (
      ap (λ t. if same_identity key other then some (r', w') else t)
        (get-insert_other id other (r, w) m h))
]

module _ {F X : Type 0} (per_second : ℕ → F → F) where
  -- A disk with the rates of what its counters have gained over an older reading of it.
  abbrev pub gained : DiskSnapshot F X → DiskSnapshot F X → F → DiskSnapshot F X
  gained d now next =
      if leb d.read_bytes_total now.read_bytes_total
        && leb d.written_bytes_total now.written_bytes_total
      then record now {
        read_bytes_per_second = per_second (now.read_bytes_total - d.read_bytes_total) next;
        written_bytes_per_second =
            per_second (now.written_bytes_total - d.written_bytes_total) next;
      }
      else record now {
        read_bytes_per_second = per_second 0 next;
        written_bytes_per_second = per_second 0 next;
      }

  length-update_loop :
      (previous : Counters) (e : F) (current : Counters) (ds : List (DiskSnapshot F X))
      → length ((update_loop per_second previous e current ds).0) ≤ length current + length ds
  unfolding update_loop
  length-update_loop previous e current [] = omega arith
  length-update_loop previous e current (d ∷ ds) =
      let next = insert (identity_of per_second d) (counters_of per_second d) current in
      omega (
        arith,
        length-update_loop previous e next ds,
        length-insert (identity_of per_second d) (counters_of per_second d) current,
      )

  rates-update_loop :
      (previous : Counters) (e : F) (current : Counters) (ds : List (DiskSnapshot F X))
      → (update_loop per_second previous e current ds).1 ≡ map (rated per_second previous e) ds
  unfolding update_loop
  rates-update_loop previous e current [] = refl
  rates-update_loop previous e current (d ∷ ds) =
      ap (λ t. rated per_second previous e d ∷ t)
        (rates-update_loop previous e
          (insert (identity_of per_second d) (counters_of per_second d) current) ds)

  get-update_loop_other :
      (previous : Counters) (e : F) (current : Counters) (ds : List (DiskSnapshot F X))
      (id : Identity)
      → mentions per_second id ds ≡ false
      → get ((update_loop per_second previous e current ds).0) id ≡ get current id
  unfolding update_loop
  get-update_loop_other previous e current [] id h = refl
  get-update_loop_other previous e current (d ∷ ds) id h =
      let key = identity_of per_second d in
      let c = counters_of per_second d in
      get-update_loop_other previous e (insert key c current) ds id (ground arith)
      ∙ get-insert_other key id c current (ground arith)

  get-update_loop_last :
      (previous : Counters) (e : F) (current : Counters) (before : List (DiskSnapshot F X))
      (d : DiskSnapshot F X) (later : List (DiskSnapshot F X))
      → mentions per_second (identity_of per_second d) later ≡ false
      → get
          ((update_loop per_second previous e current (before ++ (d ∷ later))).0)
          (identity_of per_second d)
        ≡ some (counters_of per_second d)
  unfolding update_loop
  get-update_loop_last previous e current [] d later h =
      let key = identity_of per_second d in
      let c = counters_of per_second d in
      get-update_loop_other previous e (insert key c current) later key h ∙ get-insert key c current
  get-update_loop_last previous e current (b ∷ before) d later h =
      get-update_loop_last previous e
        (insert (identity_of per_second b) (counters_of per_second b) current) before d later h

  -- An update keeps at most one entry for each of its disks, and gives every disk the rates of its own
  -- counters against the reading before.
  pub update_bounded :
      (previous : Counters) (disks : List (DiskSnapshot F X)) (elapsed : F)
      → (length ((update per_second previous disks elapsed).0) ≤ length disks)
        × ((update per_second previous disks elapsed).1
            ≡ map (rated per_second previous elapsed) disks)
  unfolding update
  update_bounded previous disks elapsed = (
    omega (arith, length-update_loop previous elapsed [] disks),
    rates-update_loop previous elapsed [] disks,
  )

  -- The disks of an update, around one of them.
  rates-update_middle :
      (previous : Counters) (e : F) (earlier : List (DiskSnapshot F X)) (d : DiskSnapshot F X)
      (rest : List (DiskSnapshot F X))
      → (update per_second previous (earlier ++ (d ∷ rest)) e).1
        ≡ (update per_second previous earlier e).1
          ++ (rated per_second previous e d ∷ (update per_second previous rest e).1)
  unfolding update
  rates-update_middle previous e earlier d rest =
      rw
        (
          rates-update_loop previous e [] (earlier ++ (d ∷ rest)),
          rates-update_loop previous e [] earlier,
          rates-update_loop previous e [] rest,
        )
        (map-append (rated per_second previous e) earlier (d ∷ rest))

  rated_absent :
      (previous : Counters) (disks : List (DiskSnapshot F X)) (elapsed next : F)
      (d : DiskSnapshot F X)
      → mentions per_second (identity_of per_second d) disks ≡ false
      → rated per_second ((update per_second previous disks elapsed).0) next d ≡ record d {
        read_bytes_per_second = per_second 0 next;
        written_bytes_per_second = per_second 0 next;
      }
  unfolding update get
  rated_absent previous disks elapsed next d h =
      rw (get-update_loop_other previous elapsed [] disks (identity_of per_second d) h)

  rated_continued :
      (previous : Counters) (before : List (DiskSnapshot F X)) (d : DiskSnapshot F X)
      (later : List (DiskSnapshot F X)) (elapsed next : F) (now : DiskSnapshot F X)
      → mentions per_second (identity_of per_second d) later ≡ false
      → identity_of per_second now ≡ identity_of per_second d
      → rated per_second ((update per_second previous (before ++ (d ∷ later)) elapsed).0) next now
        ≡ gained d now next
  unfolding update
  rated_continued previous before d later elapsed next now h same =
      let found = get-update_loop_last previous elapsed [] before d later h in
      elim (Bool-cases (
        leb d.read_bytes_total now.read_bytes_total
        && leb d.written_bytes_total now.written_bytes_total)) [
          | inl b ↦ rw (same, found, b)
          | inr b ↦ rw (same, found, b)
        ]

  -- A volume that the last reading did not have comes out of the next update with rates of nothing, at its
  -- place among the other disks, whatever its counters are and whatever was read of it earlier.
  pub update_absent :
      (previous : Counters) (disks : List (DiskSnapshot F X)) (elapsed next : F)
      (earlier : List (DiskSnapshot F X)) (d : DiskSnapshot F X) (rest : List (DiskSnapshot F X))
      → mentions per_second (identity_of per_second d) disks ≡ false
      → let kept = (update per_second previous disks elapsed).0 in
        (update per_second kept (earlier ++ (d ∷ rest)) next).1
        ≡ (update per_second kept earlier next).1
          ++ (record d {
            read_bytes_per_second = per_second 0 next;
            written_bytes_per_second = per_second 0 next;
          }
              ∷ (update per_second kept rest next).1)
  update_absent previous disks elapsed next earlier d rest h =
      let kept = (update per_second previous disks elapsed).0 in
      rates-update_middle kept next earlier d rest
      ∙ ap
          (λ r.
            (update per_second kept earlier next).1 ++ (r ∷ (update per_second kept rest next).1))
          (rated_absent previous disks elapsed next d h)

  -- A volume of the last reading comes out of the next update, at its place among the other disks, with the
  -- rates of what its counters have gained since, and of nothing if either of them went back.
  pub update_continued :
      (previous : Counters) (before : List (DiskSnapshot F X)) (d : DiskSnapshot F X)
      (later : List (DiskSnapshot F X)) (elapsed next : F) (earlier : List (DiskSnapshot F X))
      (now : DiskSnapshot F X) (rest : List (DiskSnapshot F X))
      → mentions per_second (identity_of per_second d) later ≡ false
      → identity_of per_second now ≡ identity_of per_second d
      → let kept = (update per_second previous (before ++ (d ∷ later)) elapsed).0 in
        (update per_second kept (earlier ++ (now ∷ rest)) next).1
        ≡ (update per_second kept earlier next).1
          ++ (gained d now next ∷ (update per_second kept rest next).1)
  update_continued previous before d later elapsed next earlier now rest h same =
      let kept = (update per_second previous (before ++ (d ∷ later)) elapsed).0 in
      rates-update_middle kept next earlier now rest
      ∙ ap
          (λ r.
            (update per_second kept earlier next).1 ++ (r ∷ (update per_second kept rest next).1))
          (rated_continued previous before d later elapsed next now h same)
