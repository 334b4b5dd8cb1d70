-- ===== src/StateStore/Archive.antt =====
-- `StateTransaction::archive` of src/state_store.rs.
use host_monitoring_client.Common.{
  Bool, true, ◌≡◌, refl, ◌⊎◌, inl, inr, Option, none, some, ◌∷◌, arith, if◌then◌else◌,
}
use host_monitoring_client.Common.Text.{Text}
use host_monitoring_client.Error.{io_error, already_exists, invalid_data}
use host_monitoring_client.Exec.{World, ok, err, throw}
use host_monitoring_client.Exec.Runs.{
  Runs, Post, Runs-pure, Runs-bind, Runs-when, Runs-mono, Runs-io, Runs-if, Runs-throw,
}
use host_monitoring_client.StateFiles.{StateFile, Disk, content, put}
use host_monitoring_client.StateStore.{
  archive, archive_found, create_archive, remove_file, holds_name,
}
use host_monitoring_client.StateStore.Laws.{At, found-read-Runs}

-- The copy under an archive's name is made before the active name is removed.
abbrev pub Saved : StateFile → Text → Disk → Disk → Type 0
Saved file archive_name d e =
    (t : Text) × (content file d ≡ some t)
    × ((e ≡ record d { archives = (archive_name, t) ∷ d.archives })
        ⊎ (e ≡ put file none (record d { archives = (archive_name, t) ∷ d.archives })))

create_archive-Runs :
    (n t : Text) (d : Disk)
    → Runs
        (At d)
        (create_archive n t)
        (λ _. At (record d { archives = (n, t) ∷ d.archives }))
        (λ _ w. At d w ⊎ At (record d { archives = (n, t) ∷ d.archives }) w)
unfolding create_archive
create_archive-Runs n t d =
    Runs-mono
      (Runs-io
        (λ d.
          if holds_name n d.archives
          then err (io_error already_exists)
          else ok (tt, record d { archives = (n, t) ∷ d.archives }))
        d)
      (λ w p. p) (λ _ w e. ground arith) (λ _ w e. ground arith)

remove_file-Runs :
    (file : StateFile) (d : Disk)
    → Runs
        (At d)
        (remove_file file)
        (λ _. At (put file none d))
        (λ _ w. At d w ⊎ At (put file none d) w)
unfolding remove_file
remove_file-Runs file d =
    Runs-mono (Runs-io (λ d. ok (tt, put file none d)) d) (λ w p. p) (λ _ w e. ground arith)
      (λ _ w e. ground arith)

-- What a successful archive says: there was no file, or its content has moved under the name.
abbrev pub Archived : (Text → Bool) → StateFile → Text → Disk → Option Text → World → Type 0
Archived is_entry_name file archive_name d none w = At d w × (content file d ≡ none)
Archived is_entry_name file archive_name d (some m) w =
    (m ≡ archive_name)
    × (is_entry_name archive_name ≡ true)
    × ((t : Text) × (content file d ≡ some t)
        × (w.disk ≡ put file none (record d { archives = (archive_name, t) ∷ d.archives })))

archive-Runs :
    (is_entry_name : Text → Bool) (file : StateFile) (archive_name : Text) (d : Disk)
    → Runs
        (At d)
        (archive is_entry_name file archive_name)
        (Archived is_entry_name file archive_name d)
        (λ _ w. At d w ⊎ Saved file archive_name d w.disk)
unfolding archive archive_found
archive-Runs is_entry_name file n d =
    Runs-bind _ _ (Runs-mono (found-read-Runs file d) (λ w p. p) (λ o w p. p) (λ _ w p. inl p))
      found_case
  where
    removed :
        (t : Text)
        → content file d ≡ some t
        → (w : World)
        → (At (record d { archives = (n, t) ∷ d.archives }) w
            ⊎ At (put file none (record d { archives = (n, t) ∷ d.archives })) w)
        → At d w ⊎ Saved file n d w.disk
    removed t c w p = inr (t, c, p)

    started :
        (t : Text)
        → content file d ≡ some t
        → (w : World) → (At d w ⊎ At (record d { archives = (n, t) ∷ d.archives }) w)
        → At d w ⊎ Saved file n d w.disk
    started t c w (inl p) = inl p
    started t c w (inr p) = inr (t, c, inl p)

    found_case :
        (o : Option Text)
        → Runs
            (λ w. At d w × (content file d ≡ o))
            (archive_found is_entry_name file n o)
            (Archived is_entry_name file n d)
            (λ _ w. At d w ⊎ Saved file n d w.disk)
    found_case none = Runs-pure none (λ w p. p)
    found_case (some t) = Runs-when λ c.
        Runs-if (is_entry_name n) _ (throw (io_error invalid_data))
          (λ e.
            Runs-bind _ _
              (Runs-mono (create_archive-Runs n t d) (λ w p. p) (λ _ w p. p)
                (λ _ w p. started t c w p))
              λ _.
                Runs-bind _ _
                  (Runs-mono (remove_file-Runs file _) (λ w p. p) (λ _ w p. p)
                    (λ _ w p. removed t c w p))
                  λ _. Runs-pure (some n) (λ w p. (refl, e, (t, c, p))))
          (λ _. Runs-throw (io_error invalid_data) (λ w p. inl p))

-- An archive moves the file's content under the given name, a valid one, or says that there was no file. However it
-- fails, no content is lost: nothing has changed, or the content stands in an archive of that name, and at
-- most the file itself is gone.
pub archive-Archived :
    (is_entry_name : Text → Bool) (file : StateFile) (archive_name : Text) (w : World)
    → Post
        (Archived is_entry_name file archive_name w.disk)
        (λ _ v. At w.disk v ⊎ Saved file archive_name w.disk v.disk)
        (archive is_entry_name file archive_name w)
archive-Archived is_entry_name file archive_name w =
    (archive-Runs is_entry_name file archive_name w.disk).at w refl
