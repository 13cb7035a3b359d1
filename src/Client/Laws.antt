-- ===== src/Client/Laws.antt =====
-- What `ClientBuilder::build` guarantees of the configuration that it returns (src/client.rs).
use smspool_sdk.Prelude.{
  ℕ, ◌≤◌, ◌≡◌, ◌↔◌, ◌∙◌, ap, Bool, true, false, not, some, String, ok, arith, same_text, eq_iff,
  ◌⊎◌,
}
use smspool_sdk.Float.{Floats}
use smspool_sdk.Url.{Urls, has_loopback_ip_host, normalized_path}
use smspool_sdk.Client.Config.{Client, ClientBuilder}
use smspool_sdk.Client.Build.{check_limits, check_base_url, configure, prepare, build}
use smspool_sdk.Client.Checks.{
  IsBounded, IsSecure, check_limits-IsBounded, check_limits_complete, check_base_url_sound,
  check_base_url_complete,
}

module _ (R : Floats) (U : Urls) where
  open R use {F}
  open U use {Url, parse, host, scheme, path, set_path}

  -- What an accepted builder looks like.
  abbrev pub IsAcceptable : ClientBuilder F → Type 0
  IsAcceptable b =
      IsBounded R b
      × ((u : Url) × (parse b.base_url ≡ some u) × IsSecure U b.allow_insecure_http_for_mocking u)

  -- The two groups of checks have passed, and the result is the configuration of the parsed URL.
  build-parts :
      {V : Type 0} (max_permits : ℕ) (built : Bool) (b : ClientBuilder F) {c : Client F Url}
      → build R U {V = V} max_permits built b ≡ some (ok c)
      → (b.max_concurrency ≤ max_permits)
        × (check_limits R {V = V} b ≡ ok tt)
        × ((u : Url) × (check_base_url U {V = V} b.allow_insecure_http_for_mocking b.base_url
              ≡ ok u)
            × (c.base_url ≡ set_path u (normalized_path (path u)))
            × (c.http.uses_proxy ≡ not (same_text (scheme c.base_url) "http"))
            × (c.http.follows_redirects ≡ false))
  unfolding build prepare configure
  build-parts {V} max_permits built b {c} h =
      let (u, checked) : (u : Url) × (check_base_url U {V = V} b.allow_insecure_http_for_mocking
              b.base_url
            ≡ ok u) =
        ground arith in
      (ground arith, ground arith, (u, checked, ground arith, ground arith, ground arith))

  build_complete :
      {V : Type 0} (max_permits : ℕ) (b : ClientBuilder F) (u : Url)
      → b.max_concurrency ≤ max_permits
      → IsBounded R b
      → parse b.base_url ≡ some u
      → IsSecure U b.allow_insecure_http_for_mocking u
      → build R U {V = V} max_permits true b
        ≡ some (ok (configure R U b (set_path u (normalized_path (path u)))))
  unfolding build prepare
  build_complete {V} max_permits b u permits bounded found secure =
      rw
        (
          check_limits_complete R {V = V} b bounded,
          check_base_url_complete U {V = V} b.allow_insecure_http_for_mocking b.base_url u found
              secure,
        )
        (ground arith)

  -- A builder makes a client exactly when its fields are in range, its concurrency is one that the
  -- semaphore can hold, and its base URL is a plain HTTPS URL, or an HTTP one on a loopback IP with
  -- mocking allowed, provided that `reqwest` can be set up.
  pub build_iff :
      {V : Type 0} (max_permits : ℕ) (b : ClientBuilder F)
      → ((c : Client F Url) × (build R U {V = V} max_permits true b ≡ some (ok c)))
        ↔ ((b.max_concurrency ≤ max_permits) × IsAcceptable b)
  build_iff {V} max_permits b = (
    λ h.
        let (c, e) = h in
        let (permits, limits, (u, checked, _, _, _)) = build-parts {V = V} max_permits true b e in
        let (found, secure) =
          check_base_url_sound U {V = V} b.allow_insecure_http_for_mocking b.base_url checked in
        (permits, (check_limits-IsBounded R {V = V} b limits, (u, found, secure))),
    λ h.
        let (permits, (bounded, (u, found, secure))) = h in
        (
          configure R U b (set_path u (normalized_path (path u))),
          build_complete {V = V} max_permits b u permits bounded found secure,
        ),
  )

  module _ (keeps_scheme : (u : Url) (p : String) → scheme (set_path u p) ≡ scheme u)
      (keeps_host : (u : Url) (p : String) → host (set_path u p) ≡ host u) where
    -- An accepted client never follows redirects. If its URL is plain HTTP, mocking was allowed, the
    -- host is a loopback IP and no proxy is used; if not, the URL is HTTPS.
    pub build-confined :
        {V : Type 0} (max_permits : ℕ) (built : Bool) (b : ClientBuilder F) {c : Client F Url}
        → build R U {V = V} max_permits built b ≡ some (ok c)
        → (c.http.follows_redirects ≡ false)
          × ((scheme c.base_url ≡ "https")
              ⊎ ((scheme c.base_url ≡ "http")
                  × (c.http.uses_proxy ≡ false)
                  × (b.allow_insecure_http_for_mocking ≡ true)
                  × (has_loopback_ip_host (host c.base_url) ≡ true)))
    build-confined {V} max_permits built b {c} h =
        let (permits, limits, (u, checked, at, proxy, redirects)) =
          build-parts {V = V} max_permits built b h in
        let (found, secure) =
          check_base_url_sound U {V = V} b.allow_insecure_http_for_mocking b.base_url checked in
        let same_scheme : scheme c.base_url ≡ scheme u = ap scheme at ∙ keeps_scheme u _ in
        let same_host : host c.base_url ≡ host u = ap host at ∙ keeps_host u _ in
        (redirects, ground (arith, secure.encrypted, eq_iff (scheme c.base_url) "http"))
