-- ===== src/Common/Text.antt =====
-- Rust's `str`: a text is the list of its code points. The standard library's `trim`, `len` (the
-- bytes of the UTF-8 form) and `==` are written out.
use Prim.Native.Nat.{ℕ, ◌+◌}
use Prim.Native.Char.{code}
use Prim.Native.String.{String}
use mathlib.Core.Path.{◌≡◌, refl, ap, sym, ◌∙◌}
use mathlib.Core.Bool.{Bool, true, false, ◌&&◌, ◌||◌, not}
use mathlib.Core.Option.{Option, none, some}
use mathlib.Core.List.{List, [], ◌∷◌, ◌++◌, map, reverse, reverse-append, reverse-reverse}
use native.Mathlib.Omega.{arith}
use host_monitoring_client.Common.Tests.{◌==◌, leb, if◌then◌else◌}
use host_monitoring_client.Common.Lists.{all}

abbrev pub Text : Type 0
Text = List ℕ

-- A literal of the source.
abbrev pub codes : String → Text
codes String.[] = []
codes (String.◌∷◌ c s) = code c ∷ codes s

unfoldable pub text_eq : Text → Text → Bool
text_eq [] [] = true
text_eq [] (b ∷ u) = false
text_eq (a ∷ t) [] = false
text_eq (a ∷ t) (b ∷ u) = a == b && text_eq t u

pub text_eq_refl : (t : Text) → text_eq t t ≡ true
unfolding text_eq
text_eq_refl [] = refl
text_eq_refl (a ∷ t) = ground (arith, text_eq_refl t)

pub text_eq→eq : (t u : Text) → text_eq t u ≡ true → t ≡ u
unfolding text_eq
text_eq→eq [] [] h = refl
text_eq→eq [] (b ∷ u) h = ground arith
text_eq→eq (a ∷ t) [] h = ground arith
text_eq→eq (a ∷ t) (b ∷ u) h = ground (arith, text_eq→eq t u)

-- `char::len_utf8`.
unfoldable pub len_utf8 : ℕ → ℕ
len_utf8 c = if leb c 0x7f then 1 else if leb c 0x7ff then 2 else if leb c 0xffff then 3 else 4

-- `str::len`.
unfoldable pub byte_len : Text → ℕ
unfolding len_utf8
byte_len [] = 0
byte_len (c ∷ t) = len_utf8 c + byte_len t

-- `char::is_whitespace`, the property White_Space of Unicode.
unfoldable pub is_whitespace : ℕ → Bool
is_whitespace c =
    (leb 9 c && leb c 13)
    || c == 0x20
    || c == 0x85
    || c == 0xa0
    || c == 0x1680
    || (leb 0x2000 c && leb c 0x200a)
    || c == 0x2028
    || c == 0x2029
    || c == 0x202f
    || c == 0x205f
    || c == 0x3000

unfoldable pub trim_start : Text → Text
trim_start [] = []
trim_start (c ∷ t) = if is_whitespace c then trim_start t else c ∷ t

unfoldable pub trim : Text → Text
unfolding trim_start
trim t = reverse (trim_start (reverse (trim_start t)))

trim_start_keep : (c : ℕ) (t : Text) → is_whitespace c ≡ false → trim_start (c ∷ t) ≡ c ∷ t
unfolding trim_start
trim_start_keep c t h = rw h

-- A text that begins and ends with a character that is no white space is its own `trim`.
pub trim_framed :
    (a b : ℕ) (t : Text)
    → is_whitespace a ≡ false
    → is_whitespace b ≡ false
    → trim (a ∷ (t ++ b ∷ [])) ≡ a ∷ (t ++ b ∷ [])
unfolding trim
trim_framed a b t ha hb = rw (trim_start_keep a (t ++ b ∷ []) ha) (
    rw (reverse-append (a ∷ t) (b ∷ [])) (
      rw (trim_start_keep b (reverse (a ∷ t)) hb)
        (ap reverse (sym (reverse-append (a ∷ t) (b ∷ []))) ∙ reverse-reverse (a ∷ (t ++ b ∷ [])))))

-- `str::strip_prefix`.
unfoldable pub strip_prefix : Text → Text → Option Text
strip_prefix [] t = some t
strip_prefix (a ∷ p) [] = none
strip_prefix (a ∷ p) (b ∷ t) = if a == b then strip_prefix p t else none

abbrev reversed : Option Text → Option Text
reversed none = none
reversed (some t) = some (reverse t)

-- `str::strip_suffix`.
unfoldable pub strip_suffix : Text → Text → Option Text
unfolding strip_prefix
strip_suffix p t = reversed (strip_prefix (reverse p) (reverse t))

drop_leading : ℕ → Text → Text
drop_leading c [] = []
drop_leading c (a ∷ t) = if a == c then drop_leading c t else a ∷ t

-- `str::trim_end_matches` at one character.
unfoldable pub trim_end_matches : ℕ → Text → Text
unfolding drop_leading
trim_end_matches c t = reverse (drop_leading c (reverse t))

-- `str::split(c).next()`.
unfoldable pub before : ℕ → Text → Text
before c [] = []
before c (a ∷ t) = if a == c then [] else a ∷ before c t

unfoldable pub lower : ℕ → ℕ
lower c = if leb b'A' c && leb c b'Z' then c + 32 else c

-- `str::to_ascii_lowercase`.
unfoldable pub to_ascii_lowercase : Text → Text
unfolding lower
to_ascii_lowercase t = map lower t

unfoldable pub is_digit : ℕ → Bool
is_digit c = leb b'0' c && leb c b'9'

unfoldable pub is_ascii_alphanumeric : ℕ → Bool
unfolding is_digit
is_ascii_alphanumeric c = is_digit c || (leb b'a' c && leb c b'z') || (leb b'A' c && leb c b'Z')

-- `char::is_control`.
unfoldable pub is_control : ℕ → Bool
is_control c = leb c 0x1f || (leb 0x7f c && leb c 0x9f)

all-append : (p : ℕ → Bool) (t u : Text) → all p t ≡ true → all p u ≡ true → all p (t ++ u) ≡ true
all-append p [] u h k = k
all-append p (c ∷ t) u h k = ground (arith, all-append p t u)

all-reverse : (p : ℕ → Bool) (t : Text) → all p t ≡ true → all p (reverse t) ≡ true
all-reverse p [] h = refl
all-reverse p (c ∷ t) h =
    rw (reverse-append (c ∷ []) t)
      (all-append p (reverse t) (c ∷ []) (all-reverse p t (ground arith)) (ground arith))

abbrev pub is_dark : ℕ → Bool
is_dark c = not (is_whitespace c)

trim_start-dark : (t : Text) → all is_dark t ≡ true → trim_start t ≡ t
unfolding trim_start
trim_start-dark [] h = refl
trim_start-dark (c ∷ t) h =
    let dark : is_whitespace c ≡ false = ground arith in trim_start_keep c t dark

-- A text without white space is its own `trim`.
pub trim-dark : (t : Text) → all is_dark t ≡ true → trim t ≡ t
unfolding trim
trim-dark t h =
    rw (trim_start-dark t h)
      (rw (trim_start-dark (reverse t) (all-reverse is_dark t h)) (reverse-reverse t))
