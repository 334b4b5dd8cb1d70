-- ===== src/Collectors/DiskRates.antt =====
-- src/collectors/disk_rates.rs: the rates of the volumes from their counters.
pub mod Kept
use host_monitoring_client.Common.{
  ℕ, suc, ◌≡◌, refl, ap, arith, ◌-◌, ◌≤◌, Bool, true, false, ◌&&◌, ◌||◌, Option, none, some, List,
  [], ◌∷◌, leb, if◌then◌else◌, length, Bool-cases, inl, inr, ◌∙◌, ◌+◌, ◌++◌, map,
}
use host_monitoring_client.Common.Text.{Text, text_eq, text_eq→eq, text_eq_refl}
use mathlib.Core.List.{map-append}

-- `DiskSnapshot`; F is the type of the rates, and the rest is what the rates do not touch.
pub record DiskSnapshot (F X : Type 0) : Type 0 where
  pub name : Text
  pub mount_point : Text
  pub file_system : Text
  pub read_bytes_total : ℕ
  pub written_bytes_total : ℕ
  pub read_bytes_per_second : F
  pub written_bytes_per_second : F
  pub rest : X

abbrev pub Identity : Type 0
Identity = Text × Text × Text

abbrev pub same_identity : Identity → Identity → Bool
same_identity (a, b, c) (a', b', c') = text_eq a a' && (text_eq b b' && text_eq c c')

-- The map from an identity to its counters, as a list with one entry for each.
abbrev pub Counters : Type 0
Counters = List (Identity × ℕ × ℕ)

unfoldable pub get : Counters → Identity → Option (ℕ × ℕ)
get [] id = none
get ((key, read, written) ∷ m) id =
    let rest = get m id in if same_identity key id then some (read, written) else rest

unfoldable pub insert : Identity → ℕ × ℕ → Counters → Counters
insert id (read, written) [] = (id, read, written) ∷ []
insert id (read, written) ((key, r, w) ∷ m) =
    let rest = insert id (read, written) m in
    if same_identity key id then (id, read, written) ∷ m else (key, r, w) ∷ rest

abbrev checked_sub : ℕ → ℕ → Option ℕ
checked_sub a b = if leb b a then some (a - b) else none

-- Both deltas, or none where a counter has gone back.
abbrev pub deltas : ℕ × ℕ → Option (ℕ × ℕ) → ℕ × ℕ
deltas now none = (0, 0)
deltas (read, written) (some (r, w)) =
    if leb r read && leb w written then (read - r, written - w) else (0, 0)

module _ {F X : Type 0} (per_second : ℕ → F → F) where
  abbrev pub identity_of : DiskSnapshot F X → Identity
  identity_of d = (d.name, d.mount_point, d.file_system)

  abbrev pub counters_of : DiskSnapshot F X → ℕ × ℕ
  counters_of d = (d.read_bytes_total, d.written_bytes_total)

  abbrev pub rated : Counters → F → DiskSnapshot F X → DiskSnapshot F X
  rated previous elapsed_seconds d =
      let delta = deltas (counters_of d) (get previous (identity_of d)) in
      record d {
        read_bytes_per_second = per_second (delta.0) elapsed_seconds;
        written_bytes_per_second = per_second (delta.1) elapsed_seconds;
      }

  -- The loop of `update`: the map of the last reading, the one that is built, and the disks.
  unfoldable pub update_loop :
      Counters → F → Counters → List (DiskSnapshot F X) → Counters × List (DiskSnapshot F X)
  update_loop previous elapsed current [] = (current, [])
  update_loop previous elapsed current (d ∷ ds) =
      let rest = update_loop previous elapsed (insert (identity_of d) (counters_of d) current) ds in
      (rest.0, rated previous elapsed d ∷ rest.1)

  -- `DiskRates::update`: the map that is kept, and the disks with their rates.
  unfoldable pub update :
      Counters → List (DiskSnapshot F X) → F → Counters × List (DiskSnapshot F X)
  update previous disks elapsed = update_loop previous elapsed [] disks

  abbrev pub mentions : Identity → List (DiskSnapshot F X) → Bool
  mentions id [] = false
  mentions id (d ∷ ds) = same_identity (identity_of d) id || mentions id ds
