-- ===== src/Pairing/Http/Secrets.antt =====
-- The form of a fresh secret: `random_secret` of src/pairing/client.rs.
use host_monitoring_client.Common.{
  ℕ, ◌+◌, ◌*◌, ◌/◌, ◌%◌, ◌≡◌, ◌<◌, refl, arith, Bool, true, List, [], ◌∷◌, length, all, ltb,
}
use host_monitoring_client.Common.Text.{Text, byte_len, is_digit}
use host_monitoring_client.Pairing.Identity.{is_token, is_token_byte}
use host_monitoring_client.Pairing.Http.{hex, hex_digit}

abbrev pub is_byte : ℕ → Bool
is_byte c = ltb c 256

hex_digit-token : (n : ℕ) → n < 16 → is_token_byte (hex_digit n) ≡ true
unfolding hex_digit is_token_byte is_digit
hex_digit-token n h = ground (arith, h)

hex_digit-len : (n : ℕ) (t : Text) → n < 16 → byte_len (hex_digit n ∷ t) ≡ 1 + byte_len t
unfolding hex_digit byte_len
hex_digit-len n t h = ground (arith, h)

byte_len-empty : byte_len [] ≡ 0
unfolding byte_len
byte_len-empty = refl

high_digit : (b : ℕ) → is_byte b ≡ true → b / 16 < 16
high_digit b h = let small : b < 256 = ground (arith, h) in omega (arith, small)

low_digit : (b : ℕ) → b % 16 < 16
low_digit b = omega arith

hex-len : (bytes : List ℕ) → all is_byte bytes ≡ true → byte_len (hex bytes) ≡ 2 * length bytes
unfolding hex
hex-len [] h = byte_len-empty
hex-len (b ∷ bytes) h =
    let first : is_byte b ≡ true = ground (arith, h) in
    let rest : all is_byte bytes ≡ true = ground (arith, h) in
    let high = hex_digit-len (b / 16) (hex_digit (b % 16) ∷ hex bytes) (high_digit b first) in
    let low = hex_digit-len (b % 16) (hex bytes) (low_digit b) in
    omega (arith, high, low, hex-len bytes rest)

all-hex : (bytes : List ℕ) → all is_byte bytes ≡ true → all is_token_byte (hex bytes) ≡ true
unfolding hex
all-hex [] h = refl
all-hex (b ∷ bytes) h =
    let first : is_byte b ≡ true = ground (arith, h) in
    let rest : all is_byte bytes ≡ true = ground (arith, h) in
    rw (hex_digit-token (b / 16) (high_digit b first))
      (rw (hex_digit-token (b % 16) (low_digit b)) (all-hex bytes rest))

-- The hexadecimal form of 32 bytes is a token of the current form, so that the commit of a request
-- never refuses the secret that the client generated for it.
pub hex-IsToken :
    (bytes : List ℕ) → all is_byte bytes ≡ true → length bytes ≡ 32 → is_token (hex bytes) ≡ true
unfolding is_token
hex-IsToken bytes h n =
    let size : byte_len (hex bytes) ≡ 64 = omega (arith, hex-len bytes h, n) in
    rw (size, all-hex bytes h) refl
