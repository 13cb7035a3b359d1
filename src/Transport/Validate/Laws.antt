-- ===== src/Transport/Validate/Laws.antt =====
-- What `validate` accepts, and the kind of its errors (src/transport.rs).
use smspool_sdk.Prelude.{
  ◌≡◌, refl, ◌↔◌, inl, inr, Bool, true, false, not, ◌&&◌, String, Option, none, some, ok, Errs,
  reject_if-eq-err, bind-Errs, reject_if-eq-ok, >>=-eq-ok, arith, any, is_nil, is_some, is_empty,
}
use smspool_sdk.Endpoint.{
  Endpoint, WireRequest, BodyMode, AuthMode, no_body, multipart, form_url_encoded, raw_json,
  uses_form_key, is_form, same_body_mode,
}
use smspool_sdk.Error.{
  Error, api, rate_limited, transport, timeout, response_too_large, decode, invalid_request,
  unsupported_operation, outcome_unknown,
}
use smspool_sdk.Transport.Validate.{
  is_relative_path, is_key, is_credential, path_fails, mode_differs, check_body, check_auth,
  validate,
}

abbrev pub IsInvalidRequest : {V : Type 0} → Error V → Type 0
IsInvalidRequest (invalid_request field reason) = Unit
IsInvalidRequest (api a) = ⊥
IsInvalidRequest (rate_limited n d) = ⊥
IsInvalidRequest (transport n k) = ⊥
IsInvalidRequest (timeout n p) = ⊥
IsInvalidRequest (response_too_large n l) = ⊥
IsInvalidRequest (decode n p) = ⊥
IsInvalidRequest (unsupported_operation n r) = ⊥
IsInvalidRequest (outcome_unknown u) = ⊥

-- What the body mode allows.
abbrev pub BodyFits : BodyMode → (has_fields has_json : Bool) → Type 0
BodyFits no_body has_fields has_json = (has_fields ≡ false) × (has_json ≡ false)
BodyFits multipart has_fields has_json = has_json ≡ false
BodyFits form_url_encoded has_fields has_json = has_json ≡ false
BodyFits raw_json has_fields has_json = (has_fields ≡ false) × (has_json ≡ true)

same_body_mode_sound : (m n : BodyMode) → same_body_mode m n ≡ true → m ≡ n
same_body_mode_sound m n h = ground arith

same_body_mode_refl : (m n : BodyMode) → m ≡ n → same_body_mode m n ≡ true
same_body_mode_refl m n h = ground arith

-- The tests on the body mode and on the path, as conditions.
mode_iff :
    (o : Option BodyMode) (n : BodyMode)
    → (mode_differs o n ≡ false) ↔ ((m : BodyMode) → o ≡ some m → m ≡ n)
mode_iff none n = (λ h m q. cc, λ h. refl)
mode_iff (some k) n =
    (λ h m q. same_body_mode_sound m n (ground arith), λ h. rw (same_body_mode_refl k n (h k refl)))

path_sound : (path : String) → path_fails path ≡ false → is_relative_path path ≡ true
path_sound path h = ground arith

path_complete : (path : String) → is_relative_path path ≡ true → path_fails path ≡ false
path_complete path h = ground arith

form_iff : (a b : Bool) → ((a && not b) ≡ false) ↔ (a ≡ true → b ≡ true)
form_iff true b = ground arith
form_iff false b = (λ h k. cc, λ h. refl)

module _ {V : Type 0} where
  -- A request that the transport accepts.
  pub record IsWellFormed (e : Endpoint) (wire : WireRequest V) : Type 0 where
    pub named : is_empty e.name ≡ false
    pub relative : is_relative_path e.path ≡ true
    pub mode : (m : BodyMode) → wire.body_mode ≡ some m → m ≡ e.body_mode
    pub no_credentials : any is_credential wire.query_fields ≡ false
    pub no_key : any is_key wire.body_fields ≡ false
    pub body : BodyFits e.body_mode (not (is_nil wire.body_fields)) (is_some wire.raw_json)
    pub form : uses_form_key e.auth ≡ true → is_form e.body_mode ≡ true

  check_body_iff : (m : BodyMode) (f j : Bool) → (check_body {V = V} m f j ≡ ok tt) ↔ BodyFits m f j
  unfolding check_body
  check_body_iff m f j = ground arith

  check_body-Errs : (m : BodyMode) (f j : Bool) → Errs IsInvalidRequest (check_body {V = V} m f j)
  unfolding check_body
  check_body-Errs m f j x h = ground arith

  check_auth_iff :
      (a : AuthMode) (m : BodyMode)
      → (check_auth {V = V} a m ≡ ok tt) ↔ (uses_form_key a ≡ true → is_form m ≡ true)
  unfolding check_auth
  check_auth_iff a m = (λ h q. ground arith, λ h. rw ((form_iff (uses_form_key a) (is_form m)).1 h))

  check_auth-Errs : (a : AuthMode) (m : BodyMode) → Errs IsInvalidRequest (check_auth {V = V} a m)
  unfolding check_auth
  check_auth-Errs a m x h = ground arith

  -- Every error of `validate` is an invalid request.
  pub validate-Errs :
      (e : Endpoint) (wire : WireRequest V) → Errs IsInvalidRequest (validate e wire)
  unfolding validate
  validate-Errs e wire x h = elim (reject_if-eq-err (is_empty e.name) _ _ h) [
    | inl q ↦ rw q tt
    | inr h1 ↦ elim (reject_if-eq-err (path_fails e.path) _ _ h1) [
      | inl q ↦ rw q tt
      | inr h2 ↦ elim (reject_if-eq-err (mode_differs wire.body_mode e.body_mode) _ _ h2) [
        | inl q ↦ rw q tt
        | inr h3 ↦ elim (reject_if-eq-err (any is_credential wire.query_fields) _ _ h3) [
          | inl q ↦ rw q tt
          | inr h4 ↦ elim (reject_if-eq-err (any is_key wire.body_fields) _ _ h4) [
            | inl q ↦ rw q tt
            | inr h5 ↦
                bind-Errs IsInvalidRequest (check_body e.body_mode _ _)
                  (λ _. check_auth e.auth e.body_mode) (check_body-Errs e.body_mode _ _)
                  (λ _. check_auth-Errs e.auth e.body_mode) x h5
          ]
        ]
      ]
    ]
  ]

  validate_sound :
      (e : Endpoint) (wire : WireRequest V) → validate e wire ≡ ok tt → IsWellFormed e wire
  unfolding validate
  validate_sound e wire h =
      let (named, h1) = reject_if-eq-ok (is_empty e.name) _ _ h in
      let (relative, h2) = reject_if-eq-ok (path_fails e.path) _ _ h1 in
      let (mode, h3) = reject_if-eq-ok (mode_differs wire.body_mode e.body_mode) _ _ h2 in
      let (credentials, h4) = reject_if-eq-ok (any is_credential wire.query_fields) _ _ h3 in
      let (key, h5) = reject_if-eq-ok (any is_key wire.body_fields) _ _ h4 in
      let (done, body, auth) =
        >>=-eq-ok (λ _. check_auth e.auth e.body_mode) (check_body e.body_mode _ _) h5 in
      record {
        named = named;
        relative = path_sound e.path relative;
        mode = (mode_iff wire.body_mode e.body_mode).0 mode;
        no_credentials = credentials;
        no_key = key;
        body = (check_body_iff e.body_mode _ _).0 body;
        form = (check_auth_iff e.auth e.body_mode).0 auth;
      }

  validate_complete :
      (e : Endpoint) (wire : WireRequest V) → IsWellFormed e wire → validate e wire ≡ ok tt
  unfolding validate
  validate_complete e wire h =
      rw
        (
          h.named,
          path_complete e.path h.relative,
          (mode_iff wire.body_mode e.body_mode).1 h.mode,
          h.no_credentials,
          h.no_key,
          (check_body_iff e.body_mode _ _).1 h.body,
        )
        ((check_auth_iff e.auth e.body_mode).1 h.form)

  -- The transport accepts exactly the well-formed requests.
  pub validate_iff :
      (e : Endpoint) (wire : WireRequest V) → (validate e wire ≡ ok tt) ↔ IsWellFormed e wire
  validate_iff e wire = (validate_sound e wire, validate_complete e wire)
