-- ===== src/Url.antt =====
-- URLs as the agent uses package net/url: parsing and printing are a parameter, and the host name
-- and the port are read off the host as the package does it. `extractControllerBaseURL` and
-- `reconstituteMgmtAPIURL` are of ziti-agent/pkg/ziti-edge/client.go, `GetHostAndPort` is of
-- ziti-agent/operator/internal/utils/common.go.
pub mod Hosts
pub mod Samples
mod Tests
use ziti_k8s_agent.Base.{
  ℕ, ◌-◌, Bool, true, false, ◌&&◌, ◌||◌, not, List, [], ◌∷◌, ◌++◌, Option, none, some, Text, codes,
  text_eq, is_empty, has_prefix, has_suffix, contains, replace_first, length, take, drop, leb, ◌==◌,
  if◌then◌else◌, Result, ok, err, panic,
}

-- A parsed URL, of which the scheme, the host with its port, and the path are read or set.
pub record UrlLib : Type 1 where
  pub Url : Type 0
  pub parse : Text → Result Url
  pub scheme : Url → Text
  pub host : Url → Text
  pub path : Url → Text
  pub with_path : Text → Url → Url
  pub to_text : Url → Text

abbrev pub is_digit : ℕ → Bool
is_digit c = leb b'0' c && leb c b'9'

abbrev pub all_digits : Text → Bool
all_digits [] = true
all_digits (c ∷ s) = is_digit c && all_digits s

-- The text before the last colon and the text after it; `none` where there is no colon.
abbrev pub onto_host : ℕ → Option (Text × Text) → Option (Text × Text)
onto_host c none = none
onto_host c (some (host, port)) = some (c ∷ host, port)

abbrev pub colon_here : ℕ → Text → Option (Text × Text) → Option (Text × Text)
colon_here c s (some parts) = onto_host c (some parts)
colon_here c s none = if c == b':' then some ([], s) else none

unfoldable pub cut_last_colon : Text → Option (Text × Text)
cut_last_colon [] = none
cut_last_colon (c ∷ s) = colon_here c s (cut_last_colon s)

-- Brackets round an address are taken off.
unfoldable pub strip_brackets : Text → Text
strip_brackets host =
    if has_prefix host (codes "[") && has_suffix host (codes "]")
    then take (length host - 2) (drop 1 host)
    else host

-- What follows the last colon is a port only if it has digits alone.
abbrev pub host_and_port : Text → Option (Text × Text) → Text × Text
host_and_port whole none = (strip_brackets whole, [])
host_and_port whole (some (host, port)) =
    if all_digits port then (strip_brackets host, port) else (strip_brackets whole, [])

-- `URL.Hostname()` and `URL.Port()`.
unfoldable pub split_host_port : Text → Text × Text
unfolding cut_last_colon strip_brackets
split_host_port whole = host_and_port whole (cut_last_colon whole)

-- The `-p` suffix is taken off the first label of a NetFoundry host name.
unfoldable pub clean_hostname : Text → Text
clean_hostname hostname =
    if contains hostname (codes ".netfoundry.io") && contains hostname (codes "-p.")
    then replace_first hostname (codes "-p.") (codes ".")
    else hostname

-- The URL of scheme, host name and port, with no path.
unfoldable pub base_url : Text → Text → Text → Text
base_url scheme hostname port =
    (scheme ++ (codes "://" ++ hostname)) ++ (if is_empty port then [] else b':' ∷ port)

abbrev pub management_path : Text
management_path = codes "/edge/management/v1"

unfoldable pub reconstitute_mgmt_api_url : Text → Text
reconstitute_mgmt_api_url url =
    if has_suffix url management_path then url else url ++ management_path

-- The default port of the scheme.
unfoldable pub port_or_default : Text → Text → Text
port_or_default scheme port =
    if is_empty port
    then (if text_eq scheme (codes "http")
        then codes "80"
        else if text_eq scheme (codes "https")
        then codes "443"
        else [])
    else port

module _ (U : UrlLib) where
  unfoldable pub extract_controller_base_url : Text → Result Text
  unfolding split_host_port clean_hostname base_url
  extract_controller_base_url url = elim (U.parse url) [
    | ok parsed ↦
        let (hostname, port) = split_host_port (U.host parsed) in
        ok (base_url (U.scheme parsed) (clean_hostname hostname) port)
    | err e ↦ err (codes "failed to parse management API URL: " ++ e)
    | panic ↦ panic
  ]

  unfoldable pub get_host_and_port : Text → Result (Text × Text)
  unfolding split_host_port port_or_default
  get_host_and_port url = elim (U.parse url) [
    | ok parsed ↦
        let (host, port) = split_host_port (U.host parsed) in
        ok (host, port_or_default (U.scheme parsed) port)
    | err e ↦ err (codes "failed to parse URL: " ++ e)
    | panic ↦ panic
  ]
