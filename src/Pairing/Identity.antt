-- ===== src/Pairing/Identity.antt =====
-- src/client_identity.rs, and the token checks of src/transport.rs (`read_secret`,
-- `validate_current_token`). A client identity is the text of its instance id: the product and the
-- contract in it are constants.
use host_monitoring_client.Common.{
  ℕ, ◌≡◌, refl, true, arith, [], ◌∷◌, Bool, ◌&&◌, ◌||◌, Option, none, some, ◌==◌, leb,
  if◌then◌else◌, all,
}
use host_monitoring_client.Common.Text.{
  Text, text_eq, byte_len, trim, is_digit, is_dark, is_whitespace, trim-dark,
}
use host_monitoring_client.Error.{
  rejected, invalid_host_identity, identity_mismatch, local_credential_corrupt,
}
use host_monitoring_client.Exec.{Exec, Result, ok, err, pure, lift, ◌>>=◌, ◌>>◌}
use host_monitoring_client.StateFiles.{identity, credential}
use host_monitoring_client.StateStore.{read}
use host_monitoring_client.Pairing.State.{Uuid, HostIdentity}
use host_monitoring_client.Pairing.Platform.{Platform}

unfoldable pub is_token_byte : ℕ → Bool
is_token_byte c = is_digit c || (leb b'a' c && leb c b'f')

unfoldable pub is_token : Text → Bool
is_token token = byte_len token == 64 && all is_token_byte token

pub validate_current_token : Text → Result Unit
validate_current_token token = if is_token token then ok tt else err local_credential_corrupt

pub validate_current_token-ok :
    (token : Text) {u : Unit {0}} → validate_current_token token ≡ ok u → is_token token ≡ true
unfolding validate_current_token
validate_current_token-ok token h = ground arith

pub validate_current_token-token :
    (token : Text) → is_token token ≡ true → validate_current_token token ≡ ok tt
unfolding validate_current_token
validate_current_token-token token h = rw h

-- `read_secret`: the stored token, if it has the current form.
unfoldable pub read_secret : Exec Text
read_secret = do token ← read credential; lift (validate_current_token token); pure token

-- `ensure_matches`.
unfoldable pub ensure_matches : Text → Text → Result Unit
ensure_matches mine theirs = if text_eq mine theirs then ok tt else err (rejected identity_mismatch)

module _ (x : Platform) where
  abbrev canonical : Text → Option Uuid → Result Text
  canonical value none = err (rejected invalid_host_identity)
  canonical value (some id) =
      if text_eq (x.uuid_to_text id) value then ok value else err (rejected invalid_host_identity)

  -- A host identity is a UUID in the form that the uuid crate prints.
  unfoldable pub for_instance : Text → Result Text
  for_instance value = canonical value (x.uuid_from_text value)

  unfoldable pub from_state : Exec Text
  from_state = read identity >>= λ value. lift (for_instance (trim value))

  -- `load_host_identity_from` of src/collectors/mod.rs; `details` stands for what the operating system
  -- reports beside the id.
  unfoldable pub load_host_identity : (Text → HostIdentity) → Exec HostIdentity
  load_host_identity details = from_state >>= λ id. pure (details id)

is_token_byte-dark : (c : ℕ) → is_token_byte c ≡ true → is_dark c ≡ true
unfolding is_token_byte is_digit is_whitespace
is_token_byte-dark c h = ground arith

all_token-dark : (t : Text) → all is_token_byte t ≡ true → all is_dark t ≡ true
all_token-dark [] h = refl
all_token-dark (c ∷ t) h = ground (arith, is_token_byte-dark c, all_token-dark t)

-- The store keeps a token as it is.
pub trim-token : (t : Text) → is_token t ≡ true → trim t ≡ t
unfolding is_token
trim-token t h = trim-dark t (all_token-dark t (ground arith))
