-- ===== src/Transport/Validate/Descriptors.antt =====
-- The registry of descriptors (src/endpoint.rs) against the checks of the transport
-- (src/transport.rs), for the requests that the API modules encode (`wire`, src/api/mod.rs).
use smspool_sdk.Prelude.{
  ◌≡◌, refl, Bool, true, false, not, ◌&&◌, ◌||◌, String, none, some, List, [], ◌∷◌, ◌++◌, ok,
  if◌then◌else◌, all, all-Mem, Mem, any, arith, is_nil, is_empty, same_text, sym, ap, ◌∙◌, eq_iff,
  inl, inr,
}
use smspool_sdk.Endpoint.{
  Endpoint, WireRequest, BodyMode, is_form, uses_form_key, uses_bearer, same_body_mode,
  all_endpoints, no_body, multipart, form_url_encoded, raw_json,
}
use smspool_sdk.Json.{Json}
use smspool_sdk.Transport.Request.{
  Body, Request, empty, multipart_form, url_encoded_form, json_text, build_request,
}
use smspool_sdk.Transport.Validate.{is_key, is_relative_path, validate}
use smspool_sdk.Transport.Validate.Laws.{BodyFits, validate_iff}

-- `wire`: the fields as the body, and the defaults for the rest.
abbrev pub wire : {V : Type 0} → List (String × String) → WireRequest V
wire fields = record { body_mode = none; body_fields = fields; query_fields = []; raw_json = none }

-- What a descriptor needs for such a request to pass.
abbrev pub fits : Endpoint → Bool
fits e =
    not (is_empty e.name)
    && is_relative_path e.path
    && not (same_body_mode e.body_mode raw_json)
    && (not (uses_form_key e.auth) || is_form e.body_mode)

all_fit : all fits all_endpoints ≡ true
all_fit = refl

fits-BodyFits :
    (m : BodyMode) (has_fields : Bool)
    → same_body_mode m raw_json ≡ false
    → (m ≡ no_body → has_fields ≡ false)
    → BodyFits m has_fields false
fits-BodyFits no_body has_fields h k = (k refl, refl)
fits-BodyFits multipart has_fields h k = refl
fits-BodyFits form_url_encoded has_fields h k = refl
fits-BodyFits raw_json has_fields h k = cc

nothing : (fields : List (String × String)) → fields ≡ [] → not (is_nil fields) ≡ false
nothing fields h = rw h refl

-- A request whose descriptor fits passes the checks.
pub fits-pass :
    {V : Type 0} (e : Endpoint) (fields : List (String × String))
    → fits e ≡ true
    → any is_key fields ≡ false
    → (e.body_mode ≡ no_body → fields ≡ [])
    → validate {V = V} e (wire fields) ≡ ok tt
fits-pass {V} e fields fit no_key bodiless = (validate_iff {V = V} e (wire fields)).1 (record {
  named = ground arith;
  relative = ground arith;
  mode = λ m h. cc;
  no_credentials = refl;
  no_key = no_key;
  body =
      fits-BodyFits e.body_mode (not (is_nil fields)) (ground arith)
        (λ q. nothing fields (bodiless q));
  form = λ q. ground arith;
})

-- Every descriptor of the SDK passes the checks of the transport, with whatever fields the API encodes,
-- so long as no field is called `key` and a descriptor without a body gets no field.
pub descriptors_pass :
    {V : Type 0} (e : Endpoint) (fields : List (String × String))
    → Mem e all_endpoints
    → any is_key fields ≡ false
    → (e.body_mode ≡ no_body → fields ≡ [])
    → validate {V = V} e (wire fields) ≡ ok tt
descriptors_pass e fields known = fits-pass e fields (all-Mem fits all_endpoints e all_fit known)

abbrev bears : Endpoint → Bool
bears e = uses_bearer e.auth

bearers_all : all bears all_endpoints ≡ true
bearers_all = refl

-- The fields of the body that is sent.
abbrev pub sent_fields : Body → List (String × String)
sent_fields empty = []
sent_fields (multipart_form fields) = fields
sent_fields (url_encoded_form fields) = fields
sent_fields (json_text text) = []

-- The credentials are in their places: the token in its header, the key in the body of an endpoint that
-- asks for it and in no other one, and nothing in the query.
pub record IsAuthenticated {U : Type 0} (api_key : String) (e : Endpoint)
    (fields : List (String × String)) (r : Request U) : Type 0 where
  pub token : r.bearer_token ≡ some api_key
  pub no_query : r.query ≡ []
  pub body :
      sent_fields r.body
      ≡ (if uses_form_key e.auth then fields ++ ("key", api_key) ∷ [] else fields)

module _ (J : Json) {U : Type 0} (api_key : String) where
  fits-IsAuthenticated :
      (e : Endpoint) (fields : List (String × String)) (url : U) (builds : Bool) (r : Request U)
      → fits e ≡ true
      → bears e ≡ true
      → (e.body_mode ≡ no_body → fields ≡ [])
      → build_request J api_key e (wire fields) url builds ≡ some (ok r)
      → IsAuthenticated api_key e fields r
  unfolding build_request
  fits-IsAuthenticated e fields url builds r fit bearer bodiless h = record {
    token = ground arith;
    no_query = ground arith;
    body = ground (arith, bodiless);
  }

  -- Every request that is built for a descriptor of the SDK, with whatever fields the API encodes,
  -- carries the API key as its bearer token. Its query is empty, and its body has the API's fields,
  -- followed by the key exactly for a descriptor with `BearerAndFormKey`; so long as a descriptor
  -- without a body gets no field.
  pub descriptors_authenticate :
      (e : Endpoint) (fields : List (String × String)) (url : U) (builds : Bool) (r : Request U)
      → Mem e all_endpoints
      → (e.body_mode ≡ no_body → fields ≡ [])
      → build_request J api_key e (wire fields) url builds ≡ some (ok r)
      → IsAuthenticated api_key e fields r
  descriptors_authenticate e fields url builds r known =
      fits-IsAuthenticated e fields url builds r (all-Mem fits all_endpoints e all_fit known)
        (all-Mem bears all_endpoints e bearers_all known)

-- The names of the descriptors differ.
abbrev occurs : String → List Endpoint → Bool
occurs name es = any (λ e. same_text e.name name) es

abbrev pub distinct_names : List Endpoint → Bool
distinct_names [] = true
distinct_names (e ∷ es) = not (occurs e.name es) && distinct_names es

names_differ : distinct_names all_endpoints ≡ true
names_differ = refl

not_occurs :
    (e f : Endpoint) (es : List Endpoint)
    → occurs e.name es ≡ false
    → Mem f es
    → f.name ≡ e.name
    → ⊥
not_occurs e f [] h m q = m
not_occurs e f (g ∷ es) h (inl m) q =
    ground (arith, (eq_iff g.name e.name).1 (sym (ap Endpoint.name m) ∙ q))
not_occurs e f (g ∷ es) h (inr m) q = not_occurs e f es (ground arith) m q

distinct_names_sound :
    (e f : Endpoint) (es : List Endpoint)
    → distinct_names es ≡ true
    → Mem e es
    → Mem f es
    → e.name ≡ f.name
    → e ≡ f
distinct_names_sound e f [] h m n q = absurd m
distinct_names_sound e f (g ∷ es) h (inl m) (inl n) q = m ∙ sym n
distinct_names_sound e f (g ∷ es) h (inl m) (inr n) q =
    absurd (not_occurs g f es (ground arith) n (sym q ∙ ap Endpoint.name m))
distinct_names_sound e f (g ∷ es) h (inr m) (inl n) q =
    absurd (not_occurs g e es (ground arith) m (q ∙ ap Endpoint.name n))
distinct_names_sound e f (g ∷ es) h (inr m) (inr n) q =
    distinct_names_sound e f es (ground arith) m n q

-- A descriptor of the SDK is known by its name, although two of them share a path.
pub descriptors_differ :
    (e f : Endpoint) → Mem e all_endpoints → Mem f all_endpoints → e.name ≡ f.name → e ≡ f
descriptors_differ e f = distinct_names_sound e f all_endpoints names_differ
