-- ===== src/Pairing/Endpoints.antt =====
-- The endpoint checks of src/config.rs and the activation addresses of src/pairing/activation.rs.
use host_monitoring_client.Common.{
  ℕ, ◌++◌, Bool, true, false, ◌&&◌, ◌||◌, not, Option, none, some, [], ◌∷◌, ◌==◌,
}
use host_monitoring_client.Common.Text.{
  Text, codes, text_eq, strip_suffix, trim_end_matches, to_ascii_lowercase,
}
use host_monitoring_client.Error.{
  Rejection, rejected, endpoint_unsafe, endpoint_has_query, endpoint_not_pairing,
  endpoint_not_a_base, activation_url_invalid, activation_url_credentials, activation_url_not_https,
  activation_url_mismatch,
}
use host_monitoring_client.Exec.{Result, ok, err}
use host_monitoring_client.Url.{Url}
use host_monitoring_client.Config.{ClientConfig}
use host_monitoring_client.Pairing.State.{Uuid}
use host_monitoring_client.Pairing.Platform.{Platform}

abbrev pub is_some {ℓ} : {A : Type ℓ} → Option A → Bool
is_some none = false
is_some (some a) = true

abbrev is_blank : Text → Bool
is_blank [] = true
is_blank (c ∷ t) = false

-- Two optional texts, or numbers, are the same.
abbrev same_text : Option Text → Option Text → Bool
same_text none none = true
same_text none (some u) = false
same_text (some t) none = false
same_text (some t) (some u) = text_eq t u

abbrev same_port : Option ℕ → Option ℕ → Bool
same_port none none = true
same_port none (some u) = false
same_port (some t) none = false
same_port (some t) (some u) = t == u

abbrev lowercase : Option Text → Option Text
lowercase none = none
lowercase (some t) = some (to_ascii_lowercase t)

abbrev pub ensure : Bool → Rejection → Result Unit
ensure true r = ok tt
ensure false r = err (rejected r)

infixl 5 ◌>>=◌
abbrev pub ◌>>=◌ : {A : Type 0} {B : Type 0} → Result A → (A → Result B) → Result B
ok a >>= f = f a
err e >>= f = err e

abbrev or_reject : {A : Type 0} → Option A → Rejection → Result A
or_reject none r = err (rejected r)
or_reject (some a) r = ok a

module _ (x : Platform) where
  unfoldable pub is_trusted_https : Url → Bool
  is_trusted_https url =
      text_eq url.scheme (codes "https")
      && is_some url.host_str
      && is_blank url.username
      && not (is_some url.password)
      && not (is_some url.fragment)
      && is_some url.port_or_known_default

  unfoldable pub validate_endpoint : Text → Result Unit
  unfolding is_trusted_https
  validate_endpoint endpoint = do
    url ← or_reject (x.parse_url endpoint) endpoint_unsafe
    ensure (is_trusted_https url) endpoint_unsafe

  -- The second parse is of a text that `validate_endpoint` has accepted.
  unfoldable pub validate_pairing_endpoint : Text → Result Unit
  validate_pairing_endpoint endpoint = do
    accepted ← validate_endpoint endpoint
    url ← or_reject (x.parse_url endpoint) endpoint_unsafe
    ensure (not (is_some url.query || is_some url.fragment)) endpoint_has_query

  -- `ClientConfig::validate_durable_report_endpoint`.
  unfoldable pub validate_durable_report_endpoint : Text → Result Unit
  validate_durable_report_endpoint = validate_endpoint

  abbrev derived_endpoint : Text → Option Text → Text
  derived_endpoint endpoint (some base) = base ++ x.client_pairing_requests_path
  derived_endpoint endpoint none = elim (x.parse_url endpoint) [
    | none ↦ []
    | some url ↦ trim_end_matches b'/' (
        x.url_to_text (record (x.set_path url x.client_pairing_requests_path) {
          query = none;
          fragment = none;
        }))
  ]

  -- `ClientConfig::pairing_endpoint`; an endpoint that does not parse is a panic there, and the
  -- empty text here.
  pub pairing_endpoint : ClientConfig → Text
  pairing_endpoint config = elim config.pairing_endpoint [
    | some endpoint ↦ endpoint
    | none ↦ derived_endpoint config.endpoint (strip_suffix x.client_report_path config.endpoint)
  ]

  abbrev activation_base : Url → Option Text → Result Text
  activation_base url none = err (rejected endpoint_not_pairing)
  activation_base url (some base) = ok (
      x.url_to_text
        (record (x.set_path url (base ++ codes "/activate")) { query = none; fragment = none }))

  unfoldable pub activation_endpoint : Text → Result Text
  activation_endpoint endpoint = do
    accepted ← validate_pairing_endpoint endpoint
    url ← or_reject (x.parse_url endpoint) endpoint_unsafe
    plain ← ensure (is_blank url.username && not (is_some url.password)) activation_url_credentials
    activation_base url (strip_suffix (codes "/pairing-requests") (trim_end_matches b'/' url.path))

  matches_request : Url → Url → Uuid → Bool
  matches_request url pairing request_id =
      is_blank url.username
      && not (is_some url.password)
      && not (is_some url.query)
      && not (is_some url.fragment)
      && text_eq url.scheme pairing.scheme
      && same_text (lowercase url.host_str) (lowercase pairing.host_str)
      && same_port url.port_or_known_default pairing.port_or_known_default
      && text_eq url.path (x.activation_path_prefix ++ x.uuid_to_text request_id)

  unfoldable pub validate_activation_url_request : Text → Text → Uuid → Result Unit
  unfolding matches_request
  validate_activation_url_request activation_url endpoint request_id = do
    url ← or_reject (x.parse_url activation_url) activation_url_invalid
    pairing ← or_reject (x.parse_url endpoint) endpoint_unsafe
    ensure (matches_request url pairing request_id) activation_url_mismatch

  -- `Url::parse`, or `join` on the pairing endpoint where the URL is relative.
  abbrev parse_or_join : Text → Text → Option Url → Result Url
  parse_or_join endpoint activation_url (some url) = ok url
  parse_or_join endpoint activation_url none =
      or_reject (x.join_url endpoint activation_url) activation_url_invalid

  unfoldable pub resolve_activation_url : Text → Text → Result Text
  resolve_activation_url endpoint activation_url = do
    base ← or_reject (x.parse_url endpoint) endpoint_unsafe
    url ← parse_or_join endpoint activation_url (x.parse_url activation_url)
    plain ← ensure (is_blank url.username && not (is_some url.password)) activation_url_credentials
    secure ← ensure (text_eq url.scheme (codes "https")) activation_url_not_https
    ok (x.url_to_text url)

  -- `pairing_status_endpoint` of src/pairing/polling.rs.
  unfoldable pub pairing_status_endpoint : Text → Uuid → Result Text
  pairing_status_endpoint endpoint request_id = do
    accepted ← validate_pairing_endpoint endpoint
    url ← or_reject (x.parse_url endpoint) endpoint_unsafe
    plain ← ensure (not (is_some url.query || is_some url.fragment)) endpoint_has_query
    pushed ←
        or_reject (x.push_segments url (x.uuid_to_text request_id ∷ codes "status" ∷ []))
          endpoint_not_a_base
    ok (x.url_to_text pushed)
