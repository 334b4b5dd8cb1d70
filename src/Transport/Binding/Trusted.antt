-- ===== src/Transport/Binding/Trusted.antt =====
-- What the server must have answered for the state of the credential that is reported.
use host_monitoring_client.Common.{◌≡◌, true, some}
use host_monitoring_client.Common.Text.{Text, codes}
use host_monitoring_client.Pairing.Platform.{Platform}
use host_monitoring_client.Pairing.Http.{HttpResponse}
use host_monitoring_client.Pairing.Local.{Reporter}
use host_monitoring_client.Transport.{has_json, is_final, envelope_of}
use host_monitoring_client.Transport.Binding.{
  RemoteBinding, authorized, unauthorized, CredentialStatusResponse, Fetched, fetched, BindingWire,
}

module _ (x : Platform) (wire : BindingWire) where
  -- What an answer must be for the binding that is reported.
  abbrev pub Trusted : Reporter → (Text → Text → Fetched) → RemoteBinding → Type 0
  Trusted reporter get (authorized host_id) =
      (address : Text) × (r : HttpResponse) × (s : CredentialStatusResponse) × (get address
          reporter.token
        ≡ fetched r)
      × (r.status ≡ 200)
      × (has_json r.content_type ≡ true)
      × (wire.parse_credential_status r.body ≡ some s)
      × (s.protocol_version ≡ wire.protocol_version)
      × (s.host_id ≡ reporter.identity)
      × (s.instance_id ≡ reporter.identity)
      × (host_id ≡ reporter.identity)
  Trusted reporter get unauthorized =
      (address : Text) × (r : HttpResponse) × (get address reporter.token ≡ fetched r)
      × (r.status ≡ 401)
      × (is_final (codes "unauthorized") (envelope_of x.parse_envelope r.content_type r.body)
          ≡ true)
  Trusted reporter get binding = Unit
