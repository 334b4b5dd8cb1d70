-- ===== src/Delivery/Driver.antt =====
-- src/monitor_app/delivery/runtime.rs: what the delivery driver does about a failure, with the pairing state.
use host_monitoring_client.Common.{
  ℕ, ◌≡◌, refl, ap, sym, subst, ◌∙◌, ◌++◌, Bool, true, false, ◌&&◌, not, Option, ◌⊎◌, inl, inr,
  ◌==◌, if◌then◌else◌, Bool-cases,
}
use host_monitoring_client.Common.Text.{Text, codes}
use host_monitoring_client.Exec.{World, Exec, pure, try_else}
use host_monitoring_client.Exec.Runs.{Runs, Post, Runs-pure, Runs-bind, Runs-mono, Runs-try}
use host_monitoring_client.StateFiles.{Disk}
use host_monitoring_client.StateStore.Laws.{At, begin-Runs, created-present}
use host_monitoring_client.Pairing.Platform.{Platform}
use host_monitoring_client.Pairing.Credentials.{
  Revision, CredentialMutation, applied, mutation_superseded,
}
use host_monitoring_client.Pairing.Credentials.Invalidation.{Marked, Invalidated, invalidate-Runs}
use host_monitoring_client.Pairing.Local.{Reporter, is_applied, mark_reauth_required_if_current}
use host_monitoring_client.Transport.{
  SendError, failed, is_unauthorized, stable_code, is_final, envelope_of,
}
use host_monitoring_client.Transport.Send.{ReportFormat, Wire, validate_xsos_ack}
use host_monitoring_client.Transport.Queued.{deauthorizes-validate_xsos_ack}
use host_monitoring_client.Transport.Safety.{deauthorizes}

-- xcsc's `DeliveryResponse`.
pub data DeliveryResponse : Type 0 where
  retry retry_after_recovery authorization_required : DeliveryResponse

abbrev pub reason_of : SendError → Text
reason_of e = codes "delivery requires authorization recovery: " ++ stable_code e

module _ (x : Platform) where
  abbrev pub marked_response : Bool → DeliveryResponse
  marked_response true = authorization_required
  marked_response false = retry_after_recovery

  -- `HostDeliveryDriver::classify_failure`.
  unfoldable pub classify_failure : Reporter → SendError → Exec DeliveryResponse
  classify_failure reporter e =
      if not (is_unauthorized e)
      then pure retry
      else try_else (mark_reauth_required_if_current x reporter.credential_revision (reason_of e))
          (λ marked. pure (marked_response marked)) (λ problem. pure authorization_required)

  -- What marking leaves in a directory that was there.
  abbrev AfterMark : Text → Disk → Bool → World → Type 0
  AfterMark reason d true w = Marked x reason d w
  AfterMark reason d false w = At d w

  mark_reauth-Runs :
      (revision : Revision) (reason : Text) (d : Disk)
      → d.present ≡ true
      → Runs
          (At d)
          (mark_reauth_required_if_current x revision reason)
          (AfterMark reason d)
          (λ _ w. At d w ⊎ Marked x reason d w)
  unfolding mark_reauth_required_if_current
  mark_reauth-Runs revision reason d present =
      let same = created-present d present in
      Runs-bind _ _
        (Runs-mono (begin-Runs d) (λ w p. p) (λ _ w p. subst (λ c. At c w) same p)
          (λ _ w p. inl (elim p [ inl a ↦ a | inr a ↦ subst (λ c. At c w) same a ])))
        λ _.
          Runs-bind _ _
            (Runs-mono (invalidate-Runs x revision reason d) (λ w p. p) (λ _ w p. p)
              (λ _ w p. elim p [ inl a ↦ inl a | inr m ↦ inr m.0 ]))
            answer
    where
      answer :
          (m : CredentialMutation)
          → Runs
              (Invalidated x revision reason d m)
              (pure (is_applied x m))
              (AfterMark reason d)
              (λ _ w. At d w ⊎ Marked x reason d w)
      answer applied = Runs-pure true (λ w p. p.0)
      answer mutation_superseded = Runs-pure false (λ w p. p)

  -- What a response says of the answer and leaves of the directory.
  abbrev pub Responded : Bool → Text → Disk → DeliveryResponse → World → Type 0
  Responded refused reason d retry w = At d w × (refused ≡ false)
  Responded refused reason d retry_after_recovery w = At d w × (refused ≡ true)
  Responded refused reason d authorization_required w =
      (At d w ⊎ Marked x reason d w) × (refused ≡ true)

  classify_failure-Runs :
      (reporter : Reporter) (e : SendError) (d : Disk)
      → d.present ≡ true
      → Runs
          (At d)
          (classify_failure reporter e)
          (Responded (is_unauthorized e) (reason_of e) d)
          (λ _ _. ⊥)
  unfolding classify_failure
  classify_failure-Runs reporter e d present = elim (Bool-cases (is_unauthorized e)) [
    | inr b ↦ rw b (Runs-pure retry (λ w p. (p, refl)))
    | inl b ↦ rw b (
        Runs-try (mark_reauth_required_if_current x reporter.credential_revision (reason_of e))
          (λ marked. pure (marked_response marked)) (λ problem. pure authorization_required)
          (mark_reauth-Runs reporter.credential_revision (reason_of e) d present)
          (λ marked. respond marked)
          (λ problem. Runs-pure authorization_required (λ w p. (p, refl))))
  ]
    where
      respond :
          (marked : Bool)
          → Runs
              (AfterMark (reason_of e) d marked)
              (pure (marked_response marked))
              (Responded true (reason_of e) d)
              (λ _ _. ⊥)
      respond true = Runs-pure authorization_required (λ w p. (inr p, refl))
      respond false = Runs-pure retry_after_recovery (λ w p. (p, refl))

  -- After an answer that was no acknowledgement, another 2xx answer included, the driver always has a
  -- response. In a state directory that is there, it touches the stored authorization, and no other file,
  -- only if the answer was status 401 with a final JSON envelope of code "unauthorized"; any other answer
  -- leaves the directory as it was and asks for a retry.
  pub classify_failure-Responded :
      {R : Type 0} (format : ReportFormat R) (wire : Wire) (status : ℕ) (content_type : Option Text)
      (body : Text) (report : R) (e : SendError) (reporter : Reporter) (d : Disk) (w : World)
      → validate_xsos_ack x format wire status content_type body report ≡ failed e
      → d.present ≡ true
      → w.disk ≡ d
      → Post
          (Responded
            (status == 401
              && is_final (codes "unauthorized") (envelope_of x.parse_envelope content_type body))
            (reason_of e)
            d)
          (λ _ _. ⊥)
          (classify_failure reporter e w)
  classify_failure-Responded format wire status content_type body report e reporter d w answer
        present h =
      let exact =
        ap deauthorizes (sym answer)
        ∙ deauthorizes-validate_xsos_ack x format wire status content_type body report in
      subst
        (λ refused.
          Post (Responded refused (reason_of e) d) (λ _ _. ⊥) (classify_failure reporter e w))
        exact ((classify_failure-Runs reporter e d present).at w h)
