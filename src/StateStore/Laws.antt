-- ===== src/StateStore/Laws.antt =====
-- What a read, a write and an archive do to the state directory, however they end.
use host_monitoring_client.Common.{
  ◌≡◌, refl, ap, ◌∙◌, ◌⊎◌, inl, inr, true, false, Option, none, some, arith, leb,
}
use host_monitoring_client.Common.Text.{Text, byte_len, trim}
use host_monitoring_client.Error.{Error, io_error, not_found, other, invalid_input}
use host_monitoring_client.StateFiles.{StateFile, Disk, content, put, max_bytes}
use host_monitoring_client.Exec.{World, Exec, Result, ok, err, pure, throw, io}
use host_monitoring_client.Exec.Runs.{
  Runs, Runs-pure, Runs-throw, Runs-if, Runs-mono, Runs-try, Runs-io, Runs-io-Clean, Clean,
}
use host_monitoring_client.StateStore.{
  begin, read_content, read, write, over_budget, or_none, found,
}

-- The directory is `d`.
abbrev pub At : Disk → World → Type 0
At d w = w.disk ≡ d

abbrev pub created : Disk → Disk
created d = record d { present = true }

pub begin-Runs :
    (d : Disk) → Runs (At d) begin (λ _. At (created d)) (λ _ w. At d w ⊎ At (created d) w)
unfolding begin
begin-Runs d =
    Runs-mono (Runs-io (λ d. ok (tt, record d { present = true })) d) (λ w p. p)
      (λ _ w e. ground arith) (λ _ w e. ground arith)

pub created-present : (d : Disk) → d.present ≡ true → created d ≡ d
created-present d h = ground arith

pub begin-Runs-Clean : (d : Disk) → Runs (Clean d) begin (λ _. Clean (created d)) (λ _ _. ⊥)
unfolding begin
begin-Runs-Clean d =
    Runs-mono (Runs-io-Clean (λ d. ok (tt, record d { present = true })) d (created d) tt refl)
      (λ w p. p) (λ _ w p. p.1) (λ _ w p. p)

read_content-eq :
    (file : StateFile) (o : Option Text) (d : Disk) {t : Text} {e : Disk}
    → read_content file o d ≡ ok (t, e)
    → (o ≡ some t) × (e ≡ d)
read_content-eq file none d h = ground arith
read_content-eq file (some t) d h = ground arith

read_content-absent :
    (file : StateFile) (o : Option Text) (d : Disk)
    → read_content file o d ≡ err (io_error not_found)
    → o ≡ none
read_content-absent file none d h = refl
read_content-absent file (some t) d h = ground arith

-- The error of a read: `NotFound` means that the file is not there.
abbrev pub Absent : StateFile → Disk → Error → Type 0
Absent file d e = e ≡ io_error not_found → content file d ≡ none

-- A read changes nothing, and what it returns is the file's content.
pub read-Runs :
    (file : StateFile) (d : Disk)
    → Runs
        (At d)
        (read file)
        (λ t w. At d w × (content file d ≡ some t))
        (λ e w. At d w × Absent file d e)
unfolding read
read-Runs file d =
    Runs-mono (Runs-io (λ d. read_content file (content file d) d) d) (λ w p. p)
      (λ t w h. let (c, e) = read_content-eq file (content file d) d h in (e, c))
      (λ e w h. left e w h)
  where
    left :
        (e : Error) (w : World)
        → (((w.disk ≡ d) × ((read_content file (content file d) d ≡ err e) ⊎ (e ≡ io_error other)))
            ⊎ ((a : Text) × (read_content file (content file d) d ≡ ok (a, w.disk))
                × (e ≡ io_error other)))
        → At d w × Absent file d e
    left e w (inl (p, inl h)) = (p, λ n. read_content-absent file (content file d) d (h ∙ ap err n))
    left e w (inl (p, inr h)) = (p, λ n. cc)
    left e w (inr (a, h, k)) = ((read_content-eq file (content file d) d h).1, λ n. cc)

or_none-Runs :
    {A : Type 0} (file : StateFile) (d : Disk) (Q : Option A → World → Type 0) (e : Error)
    → ((w : World) → At d w → content file d ≡ none → Q none w)
    → Runs (λ w. At d w × Absent file d e) (or_none {A = A} e) Q (λ _. At d)
or_none-Runs file d Q (io_error not_found) h = Runs-pure none (λ w p. h w p.0 (p.1 refl))
or_none-Runs file d Q (io_error k) h = Runs-throw (io_error k) (λ w p. p.0)
or_none-Runs file d Q e h = Runs-throw e (λ w p. p.0)

-- A read that takes a missing file for `none`.
pub found-read-Runs :
    (file : StateFile) (d : Disk)
    → Runs (At d) (found (read file)) (λ o w. At d w × (content file d ≡ o)) (λ _. At d)
unfolding found
found-read-Runs file d =
    Runs-try (read file) (λ a. pure (some a)) or_none (read-Runs file d)
      (λ a. Runs-pure (some a) (λ w p. p))
      (λ e. or_none-Runs file d (λ o w. At d w × (content file d ≡ o)) e (λ w p q. (p, q)))

-- With no fault ahead, a file within its budget is read.
pub found-read-Runs-Clean :
    (file : StateFile) (d : Disk) (t : Text)
    → content file d ≡ some t
    → leb (byte_len t) (max_bytes file) ≡ true
    → Runs (Clean d) (found (read file)) (λ o w. (o ≡ some t) × Clean d w) (λ _ _. ⊥)
unfolding found read
found-read-Runs-Clean file d t c fits =
    Runs-try (io (λ d. read_content file (content file d) d)) (λ a. pure (some a)) or_none
      (Runs-io-Clean (λ d. read_content file (content file d) d) d d t (rw (c, fits)))
      (λ a. Runs-pure (some a) (λ w p. (ap some p.0, p.1))) (λ e. record { at = λ w p. absurd p })

abbrev replaced : StateFile → Text → Disk → Result (Unit × Disk)
replaced file value d = ok (tt, put file (some (trim value)) d)

-- A write replaces one file, or fails; a failed one left the old content or the new one.
pub write-Runs :
    (file : StateFile) (value : Text) (d : Disk)
    → Runs
        (At d)
        (write file value)
        (λ _. At (put file (some (trim value)) d))
        (λ _ w. At d w ⊎ At (put file (some (trim value)) d) w)
unfolding write
write-Runs file value d =
    Runs-if (over_budget file (trim value)) (throw (io_error invalid_input))
      (io (replaced file value)) (λ _. Runs-throw (io_error invalid_input) (λ w p. inl p))
      λ _.
        Runs-mono (Runs-io (replaced file value) d) (λ w p. p) (λ _ w e. ground arith)
          (λ _ w e. ground arith)

-- With no fault ahead, a value within the budget is written.
pub write-Runs-Clean :
    (file : StateFile) (value : Text) (d : Disk)
    → over_budget file (trim value) ≡ false
    → Runs (Clean d) (write file value) (λ _. Clean (put file (some (trim value)) d)) (λ _ _. ⊥)
unfolding write
write-Runs-Clean file value d h = rw h (
    Runs-mono (Runs-io-Clean (replaced file value) d (put file (some (trim value)) d) tt refl)
      (λ w p. p) (λ _ w p. p.1) (λ _ w p. p))

-- Whatever the error, a missing file is `none`, and the directory is the same.
or_none-At :
    {A : Type 0} (d : Disk) (Q : Option A → World → Type 0) (e : Error)
    → ((w : World) → At d w → Q none w)
    → Runs (At d) (or_none {A = A} e) Q (λ _. At d)
or_none-At d Q (io_error not_found) h = Runs-pure none h
or_none-At d Q (io_error k) h = Runs-throw (io_error k) (λ w p. p)
or_none-At d Q e h = Runs-throw e (λ w p. p)

-- The same of anything that only looks at the directory.
pub found-Runs :
    {A : Type 0} (m : Exec A) (d : Disk) (Q : Option A → World → Type 0)
    → Runs (At d) m (λ a. Q (some a)) (λ _. At d)
    → ((w : World) → At d w → Q none w)
    → Runs (At d) (found m) Q (λ _. At d)
unfolding found
found-Runs m d Q h k =
    Runs-try m (λ a. pure (some a)) or_none h (λ a. Runs-pure (some a) (λ w p. p))
      (λ e. or_none-At d Q e k)
