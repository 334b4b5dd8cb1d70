-- ===== src/Transport/Delivery.antt =====
-- What the sending of a queued report posts, and when it counts as accepted.
use host_monitoring_client.Common.{
  ℕ, ◌≡◌, ◌++◌, refl, arith, true, Option, none, some, ◌≤◌, ltb, ◌⊎◌, inl, inr, Bool-cases,
}
use host_monitoring_client.Common.Text.{Text, byte_len, codes}
use host_monitoring_client.Pairing.Platform.{Platform}
use host_monitoring_client.Pairing.Http.{HttpResponse}
use host_monitoring_client.Pairing.Local.{Reporter}
use host_monitoring_client.Transport.{
  permanent, accepted, ClientReportAck, classify_xsos_response, is_success, has_json,
}
use host_monitoring_client.Transport.Send.{
  ReportFormat, Wire, Prepared, prepared, refused, Sent, Post, prepare_report_body, decoded_body,
  canonical_body, check_ack, validate_xsos_ack, same_ids, same_identity, answered, send_prepared,
  send_xsos_inner, send_queued_xsos,
}

module _ {R : Type 0} (x : Platform) (format : ReportFormat R) (wire : Wire) where
  -- A queued body is sent as it is, or refused for good.
  abbrev AsQueued : R → Text → Prepared R → Type 0
  AsQueued report body p =
      ((reason : Text) × (p ≡ refused (permanent (codes "invalid Client report: " ++ reason))))
      ⊎ ((p ≡ prepared report body) × (byte_len body ≤ wire.max_body_bytes))

  canonical_body-AsQueued :
      (report : R) (body : Text) (c : Option R)
      → byte_len body ≤ wire.max_body_bytes
      → AsQueued report body (canonical_body x format wire report body c)
  canonical_body-AsQueued report body none h = inl (_, refl)
  canonical_body-AsQueued report body (some c) h = elim (Bool-cases (format.equal c report)) [
    | inl e ↦ rw e (inr (refl, h))
    | inr e ↦ rw e (inl (_, refl))
  ]

  decoded_body-AsQueued :
      (report : R) (body : Text) (d : Option R)
      → byte_len body ≤ wire.max_body_bytes
      → AsQueued report body (decoded_body x format wire report body d)
  decoded_body-AsQueued report body none h = inl (_, refl)
  decoded_body-AsQueued report body (some d) h = elim (Bool-cases (format.equal d report)) [
    | inl e ↦ rw e (canonical_body-AsQueued report body (format.canonical report) h)
    | inr e ↦ rw e (inl (_, refl))
  ]

  prepare_report_body-AsQueued :
      (report : R) (body : Text)
      → AsQueued report body (prepare_report_body x format wire report (some body))
  unfolding prepare_report_body
  prepare_report_body-AsQueued report body =
      elim (Bool-cases (ltb wire.max_body_bytes (byte_len body))) [
        | inl e ↦ rw e (inl (_, refl))
        | inr e ↦ rw e (decoded_body-AsQueued report body (format.decode body) (ground arith))
      ]

  -- The network after one post of the queue's body, at the reporter's endpoint and with its token.
  abbrev pub Posted : {N : Type 0} → Reporter → Post N → R → Text → N → Sent N → Type 0
  Posted reporter post report body n s =
      (s.network ≡ (post reporter.endpoint reporter.token body n).1)
      × (byte_len body ≤ wire.max_body_bytes)
      × (same_identity x format wire reporter report ≡ true)

  answered-network :
      {N : Type 0} (report : R) (r : Option (HttpResponse × Option Text) × N)
      → Sent.network (answered x format wire report r) ≡ r.1
  answered-network report (none, n) = refl
  answered-network report (some (response, retry_after), n) = refl

  send_prepared-Posted :
      {N : Type 0} (reporter : Reporter) (post : Post N) (report : R) (body : Text) (p : Prepared R)
      (n : N)
      → AsQueued report body p
      → (Sent.network (send_prepared x format wire reporter post p n) ≡ n)
        ⊎ Posted reporter post report body n (send_prepared x format wire reporter post p n)
  send_prepared-Posted reporter post report body p n (inl (reason, e)) = inl (rw e)
  send_prepared-Posted reporter post report body p n (inr (e, h)) =
      elim (Bool-cases (same_identity x format wire reporter report)) [
        | inl same ↦ elim (Bool-cases (x.header_accepts (codes "Bearer " ++ reporter.token))) [
          | inl ok ↦
              rw (e, same, ok)
                (inr
                  (answered-network report (post reporter.endpoint reporter.token body n), h, refl))
          | inr bad ↦ rw (e, same, bad) (inl refl)
        ]
        | inr other ↦ rw (e, other) (inl refl)
      ]

  -- A queued report either leaves the network as it is or makes one request and no other: the post of the
  -- bytes of the queue, at the reporter's endpoint and with its token, within the size limit and for the
  -- identity that the reporter was built for.
  pub send_queued_xsos-Posted :
      {N : Type 0} (reporter : Reporter) (post : Post N) (report : R) (body : Text) (n : N)
      → (Sent.network (send_queued_xsos x format wire reporter post report body n) ≡ n)
        ⊎ Posted reporter post report body n
            (send_queued_xsos x format wire reporter post report body n)
  unfolding send_queued_xsos send_xsos_inner
  send_queued_xsos-Posted reporter post report body n =
      send_prepared-Posted reporter post report body
        (prepare_report_body x format wire report (some body)) n
        (prepare_report_body-AsQueued report body)

  -- The server's acknowledgement of the report.
  abbrev pub Acknowledged : R → HttpResponse → Type 0
  Acknowledged report response =
      (response.status ≡ 202)
      × (has_json response.content_type ≡ true)
      × ((ack : ClientReportAck) × (wire.parse_ack response.body ≡ some ack)
          × (same_ids x format wire report ack ≡ true))

  classified_success :
      (status : ℕ) (c : Option Text) (body : Text)
      → classify_xsos_response wire.status_text wire.schema_text x.parse_envelope status c body
        ≡ accepted
      → is_success status ≡ true
  unfolding classify_xsos_response
  classified_success status c body h = ground arith

  check_ack-accepted :
      (report : R) (a : Option ClientReportAck) (body : Text) (status : ℕ)
      → check_ack x format wire report a body status ≡ accepted
      → (ack : ClientReportAck) × (a ≡ some ack) × (same_ids x format wire report ack ≡ true)
  check_ack-accepted report none body status h = ground arith
  check_ack-accepted report (some ack) body status h = (ack, refl, ground arith)

  validate_xsos_ack-Acknowledged :
      (response : HttpResponse) (report : R)
      → validate_xsos_ack x format wire response.status response.content_type response.body report
        ≡ accepted
      → Acknowledged report response
  unfolding validate_xsos_ack
  validate_xsos_ack-Acknowledged response report h =
      let s = classified_success response.status response.content_type response.body in
      (
        ground arith,
        ground arith,
        check_ack-accepted report (wire.parse_ack response.body) response.body response.status
            (ground arith),
      )

  answered-accepted :
      {N : Type 0} (report : R) (r : Option (HttpResponse × Option Text) × N)
      → Sent.result (answered x format wire report r) ≡ accepted
      → (response : HttpResponse) × (header : Option Text) × (r.0 ≡ some (response, header))
        × Acknowledged report response
  answered-accepted report (none, n) h = ground arith
  answered-accepted report (some (response, header), n) h =
      (response, header, refl, validate_xsos_ack-Acknowledged response report h)

  send_prepared-accepted :
      {N : Type 0} (reporter : Reporter) (post : Post N) (report : R) (body : Text) (p : Prepared R)
      (n : N)
      → AsQueued report body p
      → Sent.result (send_prepared x format wire reporter post p n) ≡ accepted
      → (response : HttpResponse) × (header : Option Text) × ((post reporter.endpoint reporter.token
            body n).0
          ≡ some (response, header))
        × Acknowledged report response
  send_prepared-accepted reporter post report body (refused e) n q h = ground arith
  send_prepared-accepted reporter post report body (prepared r b) n (inl (reason, e)) h =
      ground arith
  send_prepared-accepted reporter post report body (prepared r b) n (inr (e, size)) h =
      answered-accepted report (post reporter.endpoint reporter.token body n) (grind arith)

  -- A queued report counts as accepted only if the server answered the post of its body with status 202 and
  -- a JSON acknowledgement of the report's own host and report ids.
  pub send_queued_xsos-Acknowledged :
      {N : Type 0} (reporter : Reporter) (post : Post N) (report : R) (body : Text) (n : N)
      → Sent.result (send_queued_xsos x format wire reporter post report body n) ≡ accepted
      → (response : HttpResponse) × (header : Option Text) × ((post reporter.endpoint reporter.token
            body n).0
          ≡ some (response, header))
        × Acknowledged report response
  unfolding send_queued_xsos send_xsos_inner
  send_queued_xsos-Acknowledged reporter post report body n h =
      send_prepared-accepted reporter post report body
        (prepare_report_body x format wire report (some body)) n
        (prepare_report_body-AsQueued report body) h
