-- ===== src/Pairing/Documents/Printed.antt =====
-- The documents of src/pairing that the client prints, read back.
use host_monitoring_client.Common.{
  ◌≡◌, refl, subst, Bool, true, false, some, arith, if◌then◌else◌, ◌==◌,
}
use host_monitoring_client.Common.Text.{Text, text_eq_refl, trim}
use host_monitoring_client.Error.{corrupt, pairing_state}
use host_monitoring_client.Exec.{Result, ok, err}
use host_monitoring_client.Pairing.State.{
  StoredPairingState, ActiveBinding, LocalAuthState, generation_of, persisted_state_format,
}
use host_monitoring_client.Pairing.Platform.{Platform, PlatformLaws}
use host_monitoring_client.Pairing.Documents.{
  decode_state, decode_binding, decode_auth, validate_active_binding, decode_pairing_document,
  as_corrupt, refuse_nil,
}
use host_monitoring_client.Pairing.Documents.Laws.{as_option}

refuse_nil-generation :
    (r : Result StoredPairingState) (s : StoredPairingState)
    → refuse_nil r ≡ ok s
    → (generation_of s == 0) ≡ false
refuse_nil-generation (err e) s h = ground arith
refuse_nil-generation (ok v) s h = by_generation (generation_of v == 0) refl h
  where
    by_generation :
        (b : Bool)
        → (generation_of v == 0) ≡ b
        → (if b then err (corrupt pairing_state) else ok v) ≡ ok s
        → (generation_of s == 0) ≡ false
    by_generation true e h = ground arith
    by_generation false e h = subst (λ u. (generation_of u == 0) ≡ false) (cc) e

module _ (x : Platform) where
  -- A journal that can be decoded has a generation.
  pub decode_state-generation :
      (t : Text) (s : StoredPairingState) → decode_state x t ≡ ok s → (generation_of s == 0) ≡ false
  unfolding decode_state
  decode_state-generation t s h =
      refuse_nil-generation
        (decode_pairing_document x.header_version x.state_from_json pairing_state t) s h

module _ (x : Platform) (laws : PlatformLaws x) where
  -- The journal that `persist_state` writes is read back, unless its generation is nil.
  pub decode-printed_state :
      (s : StoredPairingState)
      → (generation_of s == 0) ≡ false
      → decode_state x (trim (x.state_to_json s)) ≡ ok s
  unfolding decode_state decode_pairing_document
  decode-printed_state s h =
      rw (laws.state_version s)
        (rw (text_eq_refl persisted_state_format, laws.state_round_trip s) (rw h))

  pub decode-printed_binding :
      (b : ActiveBinding)
      → validate_active_binding x b ≡ ok tt
      → decode_binding x (trim (x.binding_to_json b)) ≡ ok b
  unfolding decode_binding decode_pairing_document
  decode-printed_binding b h =
      rw (laws.binding_version b)
        (rw (text_eq_refl persisted_state_format, laws.binding_round_trip b) (rw h))

  pub decode-printed_auth : (a : LocalAuthState) → decode_auth x (trim (x.auth_to_json a)) ≡ ok a
  unfolding decode_auth decode_pairing_document
  decode-printed_auth a =
      rw (laws.auth_version a)
        (rw (text_eq_refl persisted_state_format, laws.auth_round_trip a) refl)

  -- Whatever is read back after a write is what was written.
  pub decode-stored_state :
      (s r : StoredPairingState)
      → as_option (decode_state x (trim (x.state_to_json s))) ≡ some r
      → r ≡ s
  unfolding decode_state decode_pairing_document
  decode-stored_state s r = rw (laws.state_version s) (
      rw (text_eq_refl persisted_state_format, laws.state_round_trip s)
        (by_generation (generation_of s == 0)))
    where
      by_generation :
          (b : Bool) → as_option (if b then err (corrupt pairing_state) else ok s) ≡ some r → r ≡ s
      by_generation true h = ground arith
      by_generation false h = cc

  pub decode-stored_binding :
      (b c : ActiveBinding)
      → as_option (decode_binding x (trim (x.binding_to_json b))) ≡ some c
      → c ≡ b
  unfolding decode_binding decode_pairing_document
  decode-stored_binding b c = rw (laws.binding_version b) (
      rw (text_eq_refl persisted_state_format, laws.binding_round_trip b)
        (by_validity (validate_active_binding x b)))
    where
      by_validity : (v : Result (Unit {0})) → as_option (as_corrupt b v) ≡ some c → c ≡ b
      by_validity (ok u) h = cc
      by_validity (err e) h = ground arith
