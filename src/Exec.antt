-- ===== src/Exec.antt =====
-- Fallible code that reads and writes the state directory. What was written before an error stays
-- written, so the world comes back beside the error too.
pub mod Runs
use host_monitoring_client.Common.{ℕ, ◌+◌, Bool, Option, none, some, List, [], ◌∷◌}
use host_monitoring_client.Error.{Error, io_error, other}
use host_monitoring_client.StateFiles.{Disk}

-- How one operation of the file system ends: it completes, it fails with no effect, or it fails
-- after its effect was made durable. A crash of the process is a failure at the next operation.
pub data Outcome : Type 0 where
  completes refuses unconfirmed : Outcome

-- What the process meets: the directory, the outcomes of its next file operations (`completes` when
-- the list is used up), the wall clock, and a counter that numbers its draws of random bytes.
pub record World : Type 0 where
  pub disk : Disk
  pub outcomes : List Outcome
  pub now : ℕ
  pub draws : ℕ

pub data Result (A : Type 0) : Type 0 where
  ok : A → Result A
  err : Error → Result A

abbrev pub Exec : Type 0 → Type 0
Exec A = World → Result A × World

unfoldable pub pure : {A : Type 0} → A → Exec A
pure a w = (ok a, w)

unfoldable pub throw : {A : Type 0} → Error → Exec A
throw e w = (err e, w)

unfoldable pub lift : {A : Type 0} → Result A → Exec A
lift r w = (r, w)

-- `Utc::now()`.
unfoldable pub utc_now : Exec ℕ
utc_now w = (ok w.now, w)

-- The number of the next draw of random bytes.
unfoldable pub draw : Exec ℕ
draw w = (ok w.draws, record w { draws = w.draws + 1 })

abbrev pub continue : {A B : Type 0} → Result A → (A → Exec B) → Exec B
continue (ok a) f w = f a w
continue (err e) f w = (err e, w)

infixl 5 ◌>>=◌ ◌>>◌
unfoldable pub ◌>>=◌ : {A B : Type 0} → Exec A → (A → Exec B) → Exec B
◌>>=◌ m f w = let (r, w') = m w in continue r f w'

abbrev pub ◌>>◌ : {A B : Type 0} → Exec A → Exec B → Exec B
m >> k = m >>= λ _. k

-- `match m { Ok(a) => f(a), Err(e) => g(e) }`.
abbrev pub settle : {A B : Type 0} → Result A → (A → Exec B) → (Error → Exec B) → Exec B
settle (ok a) f g w = f a w
settle (err e) f g w = g e w

unfoldable pub try_else : {A B : Type 0} → Exec A → (A → Exec B) → (Error → Exec B) → Exec B
try_else m f g w = let (r, w') = m w in settle r f g w'

-- The next outcome and the ones after it.
abbrev pub next_outcome : List Outcome → Outcome
next_outcome [] = completes
next_outcome (o ∷ rest) = o

abbrev pub later_outcomes : List Outcome → List Outcome
later_outcomes [] = []
later_outcomes (o ∷ rest) = rest

abbrev pub finish : {A : Type 0} → Outcome → Result (A × Disk) → World → Result A × World
finish completes (ok (a, d)) w = (ok a, record w { disk = d })
finish completes (err e) w = (err e, w)
finish refuses r w = (err (io_error other), w)
finish unconfirmed (ok (a, d)) w = (err (io_error other), record w { disk = d })
finish unconfirmed (err e) w = (err e, w)

-- One operation of the file system.
unfoldable pub io : {A : Type 0} → (Disk → Result (A × Disk)) → Exec A
io op w =
    finish (next_outcome w.outcomes) (op w.disk) (record w { outcomes = later_outcomes w.outcomes })
