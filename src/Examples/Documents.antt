-- ===== src/Examples/Documents.antt =====
-- The codec of each document.
use host_monitoring_client.Common.{
  ℕ, ◌≡◌, zero, suc, refl, ap, sym, ◌∙◌, Option, none, some, [], ◌∷◌, ◌++◌,
}
use host_monitoring_client.Common.Text.{Text, trim}
use host_monitoring_client.Pairing.State.{
  StoredPairingState, creating, pending, activating, active, denied, expired, PairingStateVersion,
  current_version, Creating, Pending, Activating, Active, Ended, ActiveBinding, LocalAuthState,
  CredentialAuthorization, authorized, reauthorization_required,
}
use host_monitoring_client.Examples.Codec.{
  frame, trim-frame, put_text, put_option, get, get_text, get_option, get_text-put, get_option-put,
}

version_unique : (v : PairingStateVersion) → v ≡ current_version
version_unique current_version = refl

abbrev pub creating_body : Creating → Text
creating_body s =
    s.generation
    ∷ put_text s.pairing_endpoint (
        put_text s.report_endpoint (
          put_text s.bearer_secret (
            put_text s.polling_secret (
              put_text s.host.id (
                put_text s.host.os (
                  put_option s.host.os_version (
                    put_option s.host.kernel_version
                      (put_text s.host.arch (put_text s.host.client_version ([]))))))))))

abbrev made_creating :
    ℕ → Text → Text → Text → Text → Text → Text → Option Text → Option Text → Text → Text → Creating
made_creating v0 v1 v2 v3 v4 v5 v6 v7 v8 v9 v10 = record {
  version = current_version;
  generation = v0;
  pairing_endpoint = v1;
  report_endpoint = v2;
  bearer_secret = v3;
  polling_secret = v4;
  host = record {
    id = v5;
    os = v6;
    os_version = v7;
    kernel_version = v8;
    arch = v9;
    client_version = v10;
  };
}

abbrev pub creating_from : Text → Option Creating
creating_from = get (λ v0. get_text (λ v1. get_text (λ v2. get_text (λ v3. get_text (λ v4.
    get_text (λ v5. get_text (λ v6. get_option (λ v7. get_option (λ v8.
      get_text (λ v9.
        get_text (λ v10 rest. some (made_creating v0 v1 v2 v3 v4 v5 v6 v7 v8 v9 v10))))))))))))

pub creating_from-body : (s : Creating) (r : Text) → creating_from (creating_body s ++ r) ≡ some s
creating_from-body s r =
    get_text-put
      (λ v1. get_text (λ v2. get_text (λ v3. get_text (λ v4. get_text (λ v5. get_text (λ v6.
        get_option (λ v7. get_option (λ v8. get_text (λ v9.
          get_text
            (λ v10 rest. some (made_creating s.generation v1 v2 v3 v4 v5 v6 v7 v8 v9 v10)))))))))))
      s.pairing_endpoint
      (put_text s.report_endpoint (
        put_text s.bearer_secret (
          put_text s.polling_secret (
            put_text s.host.id (
              put_text s.host.os (
                put_option s.host.os_version (
                  put_option s.host.kernel_version
                    (put_text s.host.arch (put_text s.host.client_version ([]))))))))))
      r
    ∙ get_text-put
        (λ v2. get_text (λ v3. get_text (λ v4. get_text (λ v5. get_text (λ v6. get_option (λ v7.
          get_option (λ v8. get_text (λ v9. get_text (λ v10 rest.
            some
              (made_creating s.generation s.pairing_endpoint v2 v3 v4 v5 v6 v7 v8 v9 v10))))))))))
        s.report_endpoint
        (put_text s.bearer_secret (
          put_text s.polling_secret (
            put_text s.host.id (
              put_text s.host.os (
                put_option s.host.os_version (
                  put_option s.host.kernel_version
                    (put_text s.host.arch (put_text s.host.client_version ([])))))))))
        r
    ∙ get_text-put
        (λ v3. get_text (λ v4. get_text (λ v5. get_text (λ v6. get_option (λ v7. get_option (λ v8.
          get_text (λ v9. get_text (λ v10 rest. some (
            made_creating s.generation s.pairing_endpoint s.report_endpoint v3 v4 v5 v6 v7 v8 v9
              v10)))))))))
        s.bearer_secret
        (put_text s.polling_secret (
          put_text s.host.id (
            put_text s.host.os (
              put_option s.host.os_version (
                put_option s.host.kernel_version
                  (put_text s.host.arch (put_text s.host.client_version ([]))))))))
        r
    ∙ get_text-put
        (λ v4. get_text (λ v5. get_text (λ v6. get_option (λ v7. get_option (λ v8. get_text (λ v9.
          get_text (λ v10 rest. some (
            made_creating s.generation s.pairing_endpoint s.report_endpoint s.bearer_secret v4 v5 v6
              v7 v8 v9 v10))))))))
        s.polling_secret
        (put_text s.host.id (
          put_text s.host.os (
            put_option s.host.os_version (
              put_option s.host.kernel_version
                (put_text s.host.arch (put_text s.host.client_version ([])))))))
        r
    ∙ get_text-put
        (λ v5. get_text (λ v6. get_option (λ v7. get_option (λ v8. get_text (λ v9.
          get_text (λ v10 rest. some (
            made_creating s.generation s.pairing_endpoint s.report_endpoint s.bearer_secret
              s.polling_secret v5 v6 v7 v8 v9 v10)))))))
        s.host.id
        (put_text s.host.os (
          put_option s.host.os_version (
            put_option s.host.kernel_version
              (put_text s.host.arch (put_text s.host.client_version ([]))))))
        r
    ∙ get_text-put
        (λ v6. get_option (λ v7. get_option (λ v8. get_text (λ v9. get_text (λ v10 rest. some (
          made_creating s.generation s.pairing_endpoint s.report_endpoint s.bearer_secret
            s.polling_secret s.host.id v6 v7 v8 v9 v10))))))
        s.host.os
        (put_option s.host.os_version (
          put_option s.host.kernel_version
            (put_text s.host.arch (put_text s.host.client_version ([])))))
        r
    ∙ get_option-put
        (λ v7. get_option (λ v8. get_text (λ v9. get_text (λ v10 rest. some (
          made_creating s.generation s.pairing_endpoint s.report_endpoint s.bearer_secret
            s.polling_secret s.host.id s.host.os v7 v8 v9 v10)))))
        s.host.os_version
        (put_option s.host.kernel_version
          (put_text s.host.arch (put_text s.host.client_version ([]))))
        r
    ∙ get_option-put
        (λ v8. get_text (λ v9. get_text (λ v10 rest. some (
          made_creating s.generation s.pairing_endpoint s.report_endpoint s.bearer_secret
            s.polling_secret s.host.id s.host.os s.host.os_version v8 v9 v10))))
        s.host.kernel_version (put_text s.host.arch (put_text s.host.client_version ([]))) r
    ∙ get_text-put
        (λ v9. get_text (λ v10 rest. some (
          made_creating s.generation s.pairing_endpoint s.report_endpoint s.bearer_secret
            s.polling_secret s.host.id s.host.os s.host.os_version s.host.kernel_version v9 v10)))
        s.host.arch (put_text s.host.client_version ([])) r
    ∙ get_text-put
        (λ v10 rest. some (
          made_creating s.generation s.pairing_endpoint s.report_endpoint s.bearer_secret
            s.polling_secret s.host.id s.host.os s.host.os_version s.host.kernel_version s.host.arch
            v10))
        s.host.client_version ([]) r
    ∙ ap (λ v. some (record s { version = v })) (sym (version_unique s.version))

abbrev pub pending_body : Pending → Text
pending_body s =
    s.generation
    ∷ s.request_id
    ∷ put_text s.activation_url (
        s.expires_at
        ∷ s.poll_interval
        ∷ put_text s.pairing_endpoint (
            put_text s.report_endpoint (put_text s.bearer_secret (put_text s.polling_secret ([])))))

abbrev made_pending : ℕ → ℕ → Text → ℕ → ℕ → Text → Text → Text → Text → Pending
made_pending v0 v1 v2 v3 v4 v5 v6 v7 v8 = record {
  version = current_version;
  generation = v0;
  request_id = v1;
  activation_url = v2;
  expires_at = v3;
  poll_interval = v4;
  pairing_endpoint = v5;
  report_endpoint = v6;
  bearer_secret = v7;
  polling_secret = v8;
}

abbrev pub pending_from : Text → Option Pending
pending_from = get (λ v0. get (λ v1. get_text (λ v2. get (λ v3. get (λ v4. get_text (λ v5.
    get_text (λ v6.
      get_text (λ v7. get_text (λ v8 rest. some (made_pending v0 v1 v2 v3 v4 v5 v6 v7 v8))))))))))

pub pending_from-body : (s : Pending) (r : Text) → pending_from (pending_body s ++ r) ≡ some s
pending_from-body s r =
    get_text-put
      (λ v2. get (λ v3. get (λ v4. get_text (λ v5. get_text (λ v6. get_text (λ v7.
        get_text
          (λ v8 rest. some (made_pending s.generation s.request_id v2 v3 v4 v5 v6 v7 v8))))))))
      s.activation_url
      (s.expires_at
        ∷ s.poll_interval
        ∷ put_text s.pairing_endpoint (
            put_text s.report_endpoint (put_text s.bearer_secret (put_text s.polling_secret ([])))))
      r
    ∙ get_text-put
        (λ v5. get_text (λ v6. get_text (λ v7. get_text (λ v8 rest. some (
          made_pending s.generation s.request_id s.activation_url s.expires_at s.poll_interval v5 v6
            v7 v8)))))
        s.pairing_endpoint
        (put_text s.report_endpoint (put_text s.bearer_secret (put_text s.polling_secret ([])))) r
    ∙ get_text-put
        (λ v6. get_text (λ v7. get_text (λ v8 rest. some (
          made_pending s.generation s.request_id s.activation_url s.expires_at s.poll_interval
            s.pairing_endpoint v6 v7 v8))))
        s.report_endpoint (put_text s.bearer_secret (put_text s.polling_secret ([]))) r
    ∙ get_text-put
        (λ v7. get_text (λ v8 rest. some (
          made_pending s.generation s.request_id s.activation_url s.expires_at s.poll_interval
            s.pairing_endpoint s.report_endpoint v7 v8)))
        s.bearer_secret (put_text s.polling_secret ([])) r
    ∙ get_text-put
        (λ v8 rest. some (
          made_pending s.generation s.request_id s.activation_url s.expires_at s.poll_interval
            s.pairing_endpoint s.report_endpoint s.bearer_secret v8))
        s.polling_secret ([]) r
    ∙ ap (λ v. some (record s { version = v })) (sym (version_unique s.version))

abbrev pub activating_body : Activating → Text
activating_body s =
    s.generation
    ∷ s.request_id
    ∷ put_text s.activation_url (
        s.expires_at
        ∷ s.poll_interval
        ∷ s.instance_id
        ∷ put_text s.pairing_endpoint (put_text s.report_endpoint (put_text s.bearer_secret ([]))))

abbrev made_activating : ℕ → ℕ → Text → ℕ → ℕ → ℕ → Text → Text → Text → Activating
made_activating v0 v1 v2 v3 v4 v5 v6 v7 v8 = record {
  version = current_version;
  generation = v0;
  request_id = v1;
  activation_url = v2;
  expires_at = v3;
  poll_interval = v4;
  instance_id = v5;
  pairing_endpoint = v6;
  report_endpoint = v7;
  bearer_secret = v8;
}

abbrev pub activating_from : Text → Option Activating
activating_from = get (λ v0. get (λ v1. get_text (λ v2. get (λ v3. get (λ v4. get (λ v5.
    get_text (λ v6.
      get_text
        (λ v7. get_text (λ v8 rest. some (made_activating v0 v1 v2 v3 v4 v5 v6 v7 v8))))))))))

pub activating_from-body :
    (s : Activating) (r : Text) → activating_from (activating_body s ++ r) ≡ some s
activating_from-body s r =
    get_text-put
      (λ v2. get (λ v3. get (λ v4. get (λ v5. get_text (λ v6. get_text (λ v7.
        get_text
          (λ v8 rest. some (made_activating s.generation s.request_id v2 v3 v4 v5 v6 v7 v8))))))))
      s.activation_url
      (s.expires_at
        ∷ s.poll_interval
        ∷ s.instance_id
        ∷ put_text s.pairing_endpoint (put_text s.report_endpoint (put_text s.bearer_secret ([]))))
      r
    ∙ get_text-put
        (λ v6. get_text (λ v7. get_text (λ v8 rest. some (
          made_activating s.generation s.request_id s.activation_url s.expires_at s.poll_interval
            s.instance_id v6 v7 v8))))
        s.pairing_endpoint (put_text s.report_endpoint (put_text s.bearer_secret ([]))) r
    ∙ get_text-put
        (λ v7. get_text (λ v8 rest. some (
          made_activating s.generation s.request_id s.activation_url s.expires_at s.poll_interval
            s.instance_id s.pairing_endpoint v7 v8)))
        s.report_endpoint (put_text s.bearer_secret ([])) r
    ∙ get_text-put
        (λ v8 rest. some (
          made_activating s.generation s.request_id s.activation_url s.expires_at s.poll_interval
            s.instance_id s.pairing_endpoint s.report_endpoint v8))
        s.bearer_secret ([]) r
    ∙ ap (λ v. some (record s { version = v })) (sym (version_unique s.version))

abbrev pub active_body : Active → Text
active_body s =
    s.generation
    ∷ s.request_id
    ∷ put_text s.activation_url (s.instance_id ∷ put_text s.report_endpoint (s.completed_at ∷ []))

abbrev made_active : ℕ → ℕ → Text → ℕ → Text → ℕ → Active
made_active v0 v1 v2 v3 v4 v5 = record {
  version = current_version;
  generation = v0;
  request_id = v1;
  activation_url = v2;
  instance_id = v3;
  report_endpoint = v4;
  completed_at = v5;
}

abbrev pub active_from : Text → Option Active
active_from = get (λ v0. get (λ v1.
    get_text
      (λ v2. get (λ v3. get_text (λ v4. get (λ v5 rest. some (made_active v0 v1 v2 v3 v4 v5)))))))

pub active_from-body : (s : Active) (r : Text) → active_from (active_body s ++ r) ≡ some s
active_from-body s r =
    get_text-put
      (λ v2. get (λ v3.
        get_text (λ v4. get (λ v5 rest. some (made_active s.generation s.request_id v2 v3 v4 v5)))))
      s.activation_url (s.instance_id ∷ put_text s.report_endpoint (s.completed_at ∷ [])) r
    ∙ get_text-put
        (λ v4. get (λ v5 rest.
          some (made_active s.generation s.request_id s.activation_url s.instance_id v4 v5)))
        s.report_endpoint (s.completed_at ∷ []) r
    ∙ ap (λ v. some (record s { version = v })) (sym (version_unique s.version))

abbrev pub ended_body : Ended → Text
ended_body s =
    s.generation
    ∷ s.request_id
    ∷ put_text s.activation_url (put_text s.report_endpoint (s.completed_at ∷ []))

abbrev made_ended : ℕ → ℕ → Text → Text → ℕ → Ended
made_ended v0 v1 v2 v3 v4 = record {
  version = current_version;
  generation = v0;
  request_id = v1;
  activation_url = v2;
  report_endpoint = v3;
  completed_at = v4;
}

abbrev pub ended_from : Text → Option Ended
ended_from = get (λ v0.
    get (λ v1. get_text (λ v2. get_text (λ v3. get (λ v4 rest. some (made_ended v0 v1 v2 v3 v4))))))

pub ended_from-body : (s : Ended) (r : Text) → ended_from (ended_body s ++ r) ≡ some s
ended_from-body s r =
    get_text-put
      (λ v2. get_text (λ v3. get (λ v4 rest. some (made_ended s.generation s.request_id v2 v3 v4))))
      s.activation_url (put_text s.report_endpoint (s.completed_at ∷ [])) r
    ∙ get_text-put
        (λ v3. get (λ v4 rest. some (made_ended s.generation s.request_id s.activation_url v3 v4)))
        s.report_endpoint (s.completed_at ∷ []) r
    ∙ ap (λ v. some (record s { version = v })) (sym (version_unique s.version))

abbrev pub binding_body : ActiveBinding → Text
binding_body s = s.generation ∷ s.request_id ∷ s.instance_id ∷ put_text s.report_endpoint ([])

abbrev made_binding : ℕ → ℕ → ℕ → Text → ActiveBinding
made_binding v0 v1 v2 v3 = record {
  version = current_version;
  generation = v0;
  request_id = v1;
  instance_id = v2;
  report_endpoint = v3;
}

abbrev pub binding_from : Text → Option ActiveBinding
binding_from =
    get (λ v0. get (λ v1. get (λ v2. get_text (λ v3 rest. some (made_binding v0 v1 v2 v3)))))

pub binding_from-body : (s : ActiveBinding) (r : Text) → binding_from (binding_body s ++ r) ≡ some s
binding_from-body s r =
    get_text-put (λ v3 rest. some (made_binding s.generation s.request_id s.instance_id v3))
      s.report_endpoint ([]) r
    ∙ ap (λ v. some (record s { version = v })) (sym (version_unique s.version))

abbrev status_number : CredentialAuthorization → ℕ
status_number authorized = 0
status_number reauthorization_required = 1

abbrev status_of : ℕ → CredentialAuthorization
status_of zero = authorized
status_of (suc n) = reauthorization_required

status_of-number : (s : CredentialAuthorization) → status_of (status_number s) ≡ s
status_of-number authorized = refl
status_of-number reauthorization_required = refl

abbrev made_auth : CredentialAuthorization → Text → ℕ → LocalAuthState
made_auth status reason changed_at = record {
  version = current_version;
  status = status;
  reason = reason;
  changed_at = changed_at;
}

abbrev pub auth_body : LocalAuthState → Text
auth_body s = status_number s.status ∷ s.changed_at ∷ put_text s.reason []

abbrev pub auth_from : Text → Option LocalAuthState
auth_from = get (λ n. get (λ t. get_text (λ reason rest. some (made_auth (status_of n) reason t))))

pub auth_from-body : (s : LocalAuthState) (r : Text) → auth_from (auth_body s ++ r) ≡ some s
auth_from-body s r =
    get_text-put
      (λ reason rest. some (made_auth (status_of (status_number s.status)) reason s.changed_at))
      s.reason [] r
    ∙ ap (λ v. some (made_auth v s.reason s.changed_at)) (status_of-number s.status)
    ∙ ap (λ v. some (record s { version = v })) (sym (version_unique s.version))

abbrev pub state_body : StoredPairingState → Text
state_body (creating s) = 0 ∷ creating_body s
state_body (pending s) = 1 ∷ pending_body s
state_body (activating s) = 2 ∷ activating_body s
state_body (active s) = 3 ∷ active_body s
state_body (denied s) = 4 ∷ ended_body s
state_body (expired s) = 5 ∷ ended_body s

abbrev mapped : {A : Type 0} → (A → StoredPairingState) → Option A → Option StoredPairingState
mapped f none = none
mapped f (some a) = some (f a)

abbrev pub state_from : Text → Option StoredPairingState
state_from [] = none
state_from (zero ∷ k) = mapped creating (creating_from k)
state_from (suc zero ∷ k) = mapped pending (pending_from k)
state_from (suc (suc zero) ∷ k) = mapped activating (activating_from k)
state_from (suc (suc (suc zero)) ∷ k) = mapped active (active_from k)
state_from (suc (suc (suc (suc zero))) ∷ k) = mapped denied (ended_from k)
state_from (suc (suc (suc (suc (suc n)))) ∷ k) = mapped expired (ended_from k)

pub state_from-body : (s : StoredPairingState) (r : Text) → state_from (state_body s ++ r) ≡ some s
state_from-body (creating s) r = ap (mapped creating) (creating_from-body s r)
state_from-body (pending s) r = ap (mapped pending) (pending_from-body s r)
state_from-body (activating s) r = ap (mapped activating) (activating_from-body s r)
state_from-body (active s) r = ap (mapped active) (active_from-body s r)
state_from-body (denied s) r = ap (mapped denied) (ended_from-body s r)
state_from-body (expired s) r = ap (mapped expired) (ended_from-body s r)

-- The frame is taken off before a document is read.
abbrev pub unframed : {A : Type 0} → (Text → Option A) → Text → Option A
unframed from [] = none
unframed from (c ∷ t) = from t

pub unframed-frame :
    {A : Type 0} (from : Text → Option A) (body : Text) (a : A)
    → from (body ++ 125 ∷ []) ≡ some a
    → unframed from (trim (frame body)) ≡ some a
unframed-frame from body a h = rw (trim-frame body) h
