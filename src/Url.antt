-- ===== src/Url.antt =====
-- What the SDK uses of the crate `url`, as a parameter, and the address tests of the standard library.
use smspool_sdk.Prelude.{
  ℕ, ◌^◌, ◌/◌, Bool, false, ◌&&◌, String, Option, none, some, ◌==◌, if◌then◌else◌, is_empty,
}
use Prim.Native.Char.{code}
use Prim.Native.String

-- `url::Host`; an address is its number.
pub data Host : Type 0 where
  ipv4 : ℕ → Host
  ipv6 : ℕ → Host
  domain : String → Host

pub record Urls : Type 1 where
  pub Url : Type 0
  pub parse : String → Option Url
  pub cannot_be_a_base : Url → Bool
  pub host : Url → Option Host
  pub username : Url → String
  pub password : Url → Option String
  pub query : Url → Option String
  pub fragment : Url → Option String
  pub scheme : Url → String
  pub path : Url → String
  pub set_path : Url → String → Url
  pub join : Url → String → Option Url

-- `Ipv4Addr::is_loopback` (127.0.0.0/8), `Ipv6Addr::is_loopback` (::1), and `false` for a domain.
abbrev pub is_loopback : Host → Bool
is_loopback (ipv4 a) = a / 2 ^ 24 == 127
is_loopback (ipv6 a) = a == 1
is_loopback (domain s) = false

-- `has_loopback_ip_host` (src/client.rs), at the URL's host.
abbrev pub has_loopback_ip_host : Option Host → Bool
has_loopback_ip_host none = false
has_loopback_ip_host (some h) = is_loopback h

-- `path.trim_end_matches('/')`.
unfoldable pub trim_end_slashes : String → String
trim_end_slashes String.[] = ""
trim_end_slashes (String.◌∷◌ c s) =
    let rest = trim_end_slashes s in
    if is_empty rest && code c == b'/' then "" else String.◌∷◌ c rest

-- `format!("{}/", path.trim_end_matches('/'))`.
unfoldable pub normalized_path : String → String
normalized_path p = String.◌++◌ (trim_end_slashes p) "/"

-- `path.trim_start_matches('/')`.
unfoldable pub trim_start_slashes : String → String
trim_start_slashes String.[] = ""
trim_start_slashes (String.◌∷◌ c s) =
    if code c == b'/' then trim_start_slashes s else String.◌∷◌ c s
