-- ===== src/Pairing/Http/Refusals.antt =====
-- Which answers end a request: `PairingHttpError` of src/pairing/mod.rs and `ensure_pairing_response` of
-- src/pairing/client.rs.
use host_monitoring_client.Common.{
  ◌≡◌, refl, arith, ◌⊎◌, Bool, true, false, Option, none, some, if◌then◌else◌,
}
use host_monitoring_client.Error.{PairingHttpOperation, PairingHttpError, http}
use host_monitoring_client.Pairing.State.{Uuid}
use host_monitoring_client.Pairing.Platform.{Platform, ErrorEnvelope}
use host_monitoring_client.Pairing.Http.{
  HttpResponse, http_error, transaction_missing, transaction_expired, transaction_ended_for,
  ended_for, request_of, is_json, response_content_type, is_transaction_error, parsed_uuid, names,
}

module _ (x : Platform) (r : HttpResponse) where
  -- The answer is an error document that may not be retried and names the request.
  abbrev pub EndsRequest : Uuid → Type 0
  EndsRequest id =
      ((r.status ≡ 404) ⊎ (r.status ≡ 410))
      × (is_json (response_content_type r) ≡ true)
      × ((e : ErrorEnvelope) × (x.parse_envelope r.body ≡ some e)
          × (e.retryable ≡ false)
          × (parsed_uuid x e.details_request_id ≡ some id))

  named :
      (json : Bool) (o : Option ErrorEnvelope) (id : Uuid)
      → names (request_of x (if json then o else none)) id ≡ true
      → (json ≡ true)
        × ((e : ErrorEnvelope) × (o ≡ some e)
            × (e.retryable ≡ false)
            × (parsed_uuid x e.details_request_id ≡ some id))
  named true (some e) id h = by_kind (is_transaction_error e) refl h
    where
      by_id : (o : Option Uuid) → names o id ≡ true → o ≡ some id
      by_id none h = ground (arith, h)
      by_id (some q) h = ground (arith, h)

      by_kind :
          (b : Bool)
          → is_transaction_error e ≡ b
          → names (if b then parsed_uuid x e.details_request_id else none) id ≡ true
          → (true ≡ true)
            × ((f : ErrorEnvelope) × (some e ≡ some f)
                × (f.retryable ≡ false)
                × (parsed_uuid x f.details_request_id ≡ some id))
      by_kind true k h =
          let final : e.retryable ≡ false = ground (arith, k) in
          (refl, (e, refl, final, by_id (parsed_uuid x e.details_request_id) h))
      by_kind false k h = absurd (ground (arith, h))
  named true none id h = absurd (ground (arith, h))
  named false o id h = absurd (ground (arith, h))

  ended_status :
      (e : PairingHttpError) (id : Uuid)
      → transaction_ended_for e id ≡ true
      → ((e.status ≡ 404) ⊎ (e.status ≡ 410)) × (names e.request_id id ≡ true)
  unfolding transaction_ended_for transaction_missing transaction_expired
  ended_status e id h = ground (arith, h)

  -- A refusal ends a request only with status 404 or 410 and with a JSON error that the server marks as
  -- final and that names the same request; whatever else a server or a proxy answers leaves the request
  -- in flight.
  pub ended_for-EndsRequest :
      (operation : PairingHttpOperation) (id : Uuid)
      → ended_for (http (http_error x r operation)) id ≡ true
      → EndsRequest id
  unfolding ended_for http_error
  ended_for-EndsRequest operation id h =
      let s = ended_status (http_error x r operation) id h in
      let n = named (is_json (response_content_type r)) (x.parse_envelope r.body) id s.1 in
      (s.0, n.0, n.1)
