-- ===== src/Exec/Runs.antt =====
-- Triples for `Exec`: what holds before a run, what holds when it returns a value, and what holds
-- when it ends in an error. One rule for each way to build a program.
use host_monitoring_client.Common.{
  ◌≡◌, refl, subst, sym, ap, ◌∙◌, List, [], ◌⊎◌, inl, inr, Bool, true, false, if◌then◌else◌,
}
use host_monitoring_client.Error.{Error, io_error, other}
use host_monitoring_client.StateFiles.{Disk}
use host_monitoring_client.Exec.{
  Outcome, completes, refuses, unconfirmed, World, Result, ok, err, Exec, pure, throw, lift,
  continue, settle, ◌>>=◌, try_else, utc_now, draw, io, next_outcome, later_outcomes, finish,
}

module _ {A : Type 0} where
  abbrev pub Post : (A → World → Type 0) → (Error → World → Type 0) → Result A × World → Type 0
  Post Q E (ok a, w) = Q a w
  Post Q E (err e, w) = E e w

  pub record Runs (P : World → Type 0) (m : Exec A) (Q : A → World → Type 0)
      (E : Error → World → Type 0) : Type 0 where
    pub at : (w : World) → P w → Post Q E (m w)

module _ {A : Type 0} {P : World → Type 0} {Q : A → World → Type 0}
    {E : Error → World → Type 0} where
  pub Runs-pure : (a : A) → ((w : World) → P w → Q a w) → Runs P (pure a) Q E
  unfolding pure
  Runs-pure a h = record { at = h }

  pub Runs-throw : (e : Error) → ((w : World) → P w → E e w) → Runs P (throw e) Q E
  unfolding throw
  Runs-throw e h = record { at = h }

  pub Runs-lift :
      (r : Result A)
      → ((a : A) → r ≡ ok a → (w : World) → P w → Q a w)
      → ((e : Error) → r ≡ err e → (w : World) → P w → E e w)
      → Runs P (lift r) Q E
  unfolding lift
  Runs-lift (ok a) h k = record { at = h a refl }
  Runs-lift (err e) h k = record { at = k e refl }

  pub Runs-if :
      (b : Bool) (m n : Exec A)
      → (b ≡ true → Runs P m Q E)
      → (b ≡ false → Runs P n Q E)
      → Runs P (if b then m else n) Q E
  Runs-if true m n h k = h refl
  Runs-if false m n h k = k refl

-- A fact that does not speak of the world is taken out of the precondition.
module _ {A : Type 0} {X : Type 0} {P : World → Type 0} {m : Exec A} {Q : A → World → Type 0}
    {E : Error → World → Type 0} where
  pub Runs-given : (X → Runs P m Q E) → Runs (λ w. X × P w) m Q E
  Runs-given h = record { at = λ w p. (h p.0).at w p.1 }

  pub Runs-when : (X → Runs P m Q E) → Runs (λ w. P w × X) m Q E
  Runs-when h = record { at = λ w p. (h p.1).at w p.0 }

-- What holds of the directory before may be kept as a fact about a fixed directory.
pub Runs-at :
    {A : Type 0} {P : Disk → Type 0} {m : Exec A} {Q : A → World → Type 0}
    {E : Error → World → Type 0}
    → ((d : Disk) → P d → Runs (λ w. w.disk ≡ d) m Q E)
    → Runs (λ w. P w.disk) m Q E
Runs-at h = record { at = λ w p. (h w.disk p).at w refl }

Post-mono :
    {A : Type 0} {Q Q' : A → World → Type 0} {E E' : Error → World → Type 0} (r : Result A)
    (w : World)
    → ((a : A) (w : World) → Q a w → Q' a w)
    → ((e : Error) (w : World) → E e w → E' e w)
    → Post Q E (r, w)
    → Post Q' E' (r, w)
Post-mono (ok a) w q e h = q a w h
Post-mono (err x) w q e h = e x w h

-- The rule of consequence.
pub Runs-mono :
    {A : Type 0} {P P' : World → Type 0} {Q Q' : A → World → Type 0} {E E' : Error → World → Type 0}
    {m : Exec A}
    → Runs P m Q E
    → ((w : World) → P' w → P w)
    → ((a : A) (w : World) → Q a w → Q' a w)
    → ((e : Error) (w : World) → E e w → E' e w)
    → Runs P' m Q' E'
Runs-mono {m = m} h p q e = record { at = λ w pw. Post-mono (m w).0 (m w).1 q e (h.at w (p w pw)) }

module _ {A B : Type 0} {Q : A → World → Type 0} {R : B → World → Type 0}
    {E : Error → World → Type 0} where
  Post-continue :
      (r : Result A) (w : World) (f : A → Exec B)
      → Post Q E (r, w)
      → ((a : A) → Runs (Q a) (f a) R E)
      → Post R E (continue r f w)
  Post-continue (ok a) w f h k = (k a).at w h
  Post-continue (err e) w f h k = h

  pub Runs-bind :
      {P : World → Type 0} (m : Exec A) (f : A → Exec B)
      → Runs P m Q E
      → ((a : A) → Runs (Q a) (f a) R E)
      → Runs P (m >>= f) R E
  unfolding ◌>>=◌
  Runs-bind m f h k = record { at = λ w p. Post-continue (m w).0 (m w).1 f (h.at w p) k }

module _ {A B : Type 0} {P : World → Type 0} {R : B → World → Type 0}
    {E : Error → World → Type 0} where
  -- The rest of the block may use that `r` is the value that it goes on with.
  pub Runs-bind-lift :
      (r : Result A) (f : A → Exec B)
      → ((a : A) → r ≡ ok a → Runs P (f a) R E)
      → ((e : Error) → r ≡ err e → (w : World) → P w → E e w)
      → Runs P (lift r >>= f) R E
  unfolding ◌>>=◌ lift
  Runs-bind-lift (ok a) f h k = record { at = (h a refl).at }
  Runs-bind-lift (err e) f h k = record { at = k e refl }

module _ {A B : Type 0} {Q : A → World → Type 0} {F : Error → World → Type 0}
    {R : B → World → Type 0} {E : Error → World → Type 0} where
  Post-settle :
      (r : Result A) (w : World) (f : A → Exec B) (g : Error → Exec B)
      → Post Q F (r, w)
      → ((a : A) → Runs (Q a) (f a) R E)
      → ((e : Error) → Runs (F e) (g e) R E)
      → Post R E (settle r f g w)
  Post-settle (ok a) w f g h k l = (k a).at w h
  Post-settle (err e) w f g h k l = (l e).at w h

  pub Runs-try :
      {P : World → Type 0} (m : Exec A) (f : A → Exec B) (g : Error → Exec B)
      → Runs P m Q F
      → ((a : A) → Runs (Q a) (f a) R E)
      → ((e : Error) → Runs (F e) (g e) R E)
      → Runs P (try_else m f g) R E
  unfolding try_else
  Runs-try m f g h k l = record { at = λ w p. Post-settle (m w).0 (m w).1 f g (h.at w p) k l }

-- The directory is `d`, and no fault is ahead.
abbrev pub Clean : Disk → World → Type 0
Clean d w = (w.disk ≡ d) × (w.outcomes ≡ [])

-- Reading the clock changes nothing.
pub Runs-utc_now : {P : World → Type 0} {E : Error → World → Type 0} → Runs P utc_now (λ t. P) E
unfolding utc_now
Runs-utc_now = record { at = λ w p. p }

-- One file operation that may end in any of the three ways: where its effect is durable, it is `op`'s
-- effect.
module _ {A : Type 0} (op : Disk → Result (A × Disk)) where
  abbrev Value : Disk → A → World → Type 0
  Value d a w = op d ≡ ok (a, w.disk)

  abbrev Left : Disk → Error → World → Type 0
  Left d e w =
      ((w.disk ≡ d) × ((op d ≡ err e) ⊎ (e ≡ io_error other)))
      ⊎ ((a : A) × (op d ≡ ok (a, w.disk)) × (e ≡ io_error other))

  finish_lem :
      (o : Outcome) (r : Result (A × Disk)) (d : Disk) (w : World)
      → op d ≡ r
      → w.disk ≡ d
      → Post (Value d) (Left d) (finish o r w)
  finish_lem completes (ok (a, d')) d w h s = h
  finish_lem completes (err e) d w h s = inl (s, inl h)
  finish_lem refuses r d w h s = inl (s, inr refl)
  finish_lem unconfirmed (ok (a, d')) d w h s = inr (a, h, refl)
  finish_lem unconfirmed (err e) d w h s = inl (s, inl h)

  pub Runs-io : (d : Disk) → Runs (λ w. w.disk ≡ d) (io op) (Value d) (Left d)
  unfolding io
  Runs-io d = record {
    at = λ w p.
        subst (λ d. Post (Value d) (Left d) (io op w)) p
          (finish_lem (next_outcome w.outcomes) (op w.disk) w.disk
            (record w { outcomes = later_outcomes w.outcomes }) refl refl);
  }

  pub Runs-io-Clean :
      (d d' : Disk) (a : A)
      → op d ≡ ok (a, d')
      → Runs (Clean d) (io op) (λ b w. (b ≡ a) × Clean d' w) (λ _ _. ⊥)
  unfolding io
  Runs-io-Clean d d' a h = record {
    at = λ w p.
        subst
          (λ (o : List Outcome).
            Post (λ b w. (b ≡ a) × Clean d' w) (λ _ _. ⊥)
              (finish (next_outcome o) (op w.disk) (record w { outcomes = later_outcomes o })))
          (sym p.1) (rw (ap op p.0 ∙ h) (refl, (refl, refl)));
  }

-- A step that says nothing of the directory.
pub Runs-draw :
    (Q : Disk → Type 0) {E : Error → World → Type 0} → Runs (λ w. Q w.disk) draw (λ _ w. Q w.disk) E
unfolding draw
Runs-draw Q = record { at = λ w p. p }
