-- ===== src/Examples/Codec.antt =====
-- A codec that can be run: every document is a framed list of numbers, and a text stands behind its length.
use mathlib.Core.List.{append_assoc}
use host_monitoring_client.Common.{
  ℕ, ◌+◌, ◌*◌, ◌≡◌, ◌≤◌, zero, suc, refl, ap, ◌∙◌, arith, true, false, Option, none, some, [], ◌∷◌,
  ◌++◌, length, length-append, leb,
}
use host_monitoring_client.Common.Text.{Text, trim, trim_framed, byte_len, is_whitespace, len_utf8}
use host_monitoring_client.StateFiles.{StateFile, max_bytes}
use host_monitoring_client.StateStore.{over_budget}

abbrev pub frame : Text → Text
frame body = 123 ∷ (body ++ 125 ∷ [])

pub trim-frame : (body : Text) → trim (frame body) ≡ frame body
unfolding is_whitespace
trim-frame body = trim_framed 123 125 body refl refl

abbrev pub put_text : Text → Text → Text
put_text t k = length t ∷ (t ++ k)

abbrev pub put_option : Option Text → Text → Text
put_option none k = 0 ∷ k
put_option (some t) k = 1 ∷ put_text t k

pub take : ℕ → Text → Text
take zero t = []
take (suc n) [] = []
take (suc n) (c ∷ t) = c ∷ take n t

pub drop : ℕ → Text → Text
drop zero t = t
drop (suc n) [] = []
drop (suc n) (c ∷ t) = drop n t

take-length : (t k : Text) → take (length t) (t ++ k) ≡ t
unfolding take
take-length [] k = refl
take-length (c ∷ t) k = ap (λ u. c ∷ u) (take-length t k)

drop-length : (t k : Text) → drop (length t) (t ++ k) ≡ k
unfolding drop
drop-length [] k = refl
drop-length (c ∷ t) k = drop-length t k

module _ {A : Type 0} where
  abbrev pub get : (ℕ → Text → Option A) → Text → Option A
  get f [] = none
  get f (n ∷ k) = f n k

  abbrev pub get_text : (Text → Text → Option A) → Text → Option A
  get_text f [] = none
  get_text f (n ∷ k) = f (take n k) (drop n k)

  abbrev pub get_option : (Option Text → Text → Option A) → Text → Option A
  get_option f [] = none
  get_option f (zero ∷ k) = f none k
  get_option f (suc n ∷ k) = get_text (λ t. f (some t)) k

  pub get_text-put :
      (f : Text → Text → Option A) (t k r : Text) → get_text f (put_text t k ++ r) ≡ f t (k ++ r)
  get_text-put f t k r = rw (append_assoc t k r) (
      ap (λ u. f u (drop (length t) (t ++ (k ++ r)))) (take-length t (k ++ r))
      ∙ ap (f t) (drop-length t (k ++ r)))

  pub get_option-put :
      (f : Option Text → Text → Option A) (o : Option Text) (k r : Text)
      → get_option f (put_option o k ++ r) ≡ f o (k ++ r)
  get_option-put f none k r = refl
  get_option-put f (some t) k r = get_text-put (λ t. f (some t)) t k r

len_utf8-bound : (t : Text) → byte_len t ≤ 4 * length t
unfolding byte_len len_utf8
len_utf8-bound [] = omega arith
len_utf8-bound (c ∷ t) = ground (arith, len_utf8-bound t)

-- A short document fits its file.
pub frame-fits :
    (file : StateFile) (body : Text)
    → 4 * (length body + 2) ≤ max_bytes file
    → over_budget file (trim (frame body)) ≡ false
frame-fits file body h = rw (trim-frame body) (
    let bound : byte_len (frame body) ≤ max_bytes file =
      omega (arith, len_utf8-bound (frame body), length-append body (125 ∷ []), h) in
    ground (arith, bound))

pub frame-readable :
    (file : StateFile) (body : Text)
    → 4 * (length body + 2) ≤ max_bytes file
    → leb (byte_len (trim (frame body))) (max_bytes file) ≡ true
frame-readable file body h = rw (trim-frame body) (
    let bound : byte_len (frame body) ≤ max_bytes file =
      omega (arith, len_utf8-bound (frame body), length-append body (125 ∷ []), h) in
    ground (arith, bound))
