-- ===== src/Url/Hosts.antt =====
-- What the host names, ports and base URLs guarantee.
use ziti_k8s_agent.Base.{
  ℕ, ◌-◌, ◌≡◌, refl, ap, ◌∙◌, inl, inr, true, false, none, some, [], ◌∷◌, ◌++◌, arith, Text, codes,
  has_suffix, has_suffix-append, contains, length, take-append, length-append, ◌==◌, Bool-cases,
  and_parts, ok,
}
use ziti_k8s_agent.Url.{
  UrlLib, is_digit, all_digits, cut_last_colon, strip_brackets, split_host_port, clean_hostname,
  base_url, management_path, reconstitute_mgmt_api_url, port_or_default,
  extract_controller_base_url, get_host_and_port,
}

-- The URL of the management API ends in its path, and a second call changes nothing.
pub reconstitute_lem :
    (url : Text)
    → (has_suffix (reconstitute_mgmt_api_url url) management_path ≡ true)
      × (reconstitute_mgmt_api_url (reconstitute_mgmt_api_url url) ≡ reconstitute_mgmt_api_url url)
unfolding reconstitute_mgmt_api_url
reconstitute_lem url = elim (Bool-cases (has_suffix url management_path)) [
  | inl there ↦ rw there (there, rw there refl)
  | inr missing ↦
      rw missing
        (has_suffix-append url management_path, rw (has_suffix-append url management_path) refl)
]

-- Digits have no colon.
digit_not_colon : (c : ℕ) → is_digit c ≡ true → (c == b':') ≡ false
digit_not_colon c h = ground arith

cut_digits : (port : Text) → all_digits port ≡ true → cut_last_colon port ≡ none
unfolding cut_last_colon
cut_digits [] h = refl
cut_digits (c ∷ port) h =
    let (d, ds) = and_parts (is_digit c) (all_digits port) h in
    rw (cut_digits port ds, digit_not_colon c d) refl

cut_host :
    (h port : Text) → all_digits port ≡ true → cut_last_colon (h ++ b':' ∷ port) ≡ some (h, port)
unfolding cut_last_colon
cut_host [] port d = rw (cut_digits port d) refl
cut_host (c ∷ h) port d = rw (cut_host h port d) refl

-- A host with a port of digits falls into the host without its brackets and the port.
pub split_host_port-colon :
    (h port : Text)
    → all_digits port ≡ true
    → split_host_port (h ++ b':' ∷ port) ≡ (strip_brackets h, port)
unfolding split_host_port
split_host_port-colon h port d = rw (cut_host h port d, d) refl

bracketed : Text → Text
bracketed h = b'[' ∷ h ++ codes "]"

strip_bracketed : (h : Text) → strip_brackets (bracketed h) ≡ h
unfolding strip_brackets bracketed
strip_bracketed h =
    rw (has_suffix-append (b'[' ∷ h) (codes "]"), bracketed_length) (take-append h (codes "]"))
  where
    bracketed_length : length (bracketed h) - 2 ≡ length h
    bracketed_length = omega (arith, length-append {0} h (codes "]"))

module _ (U : UrlLib) where
  -- For a URL whose host is a name with a port: `GetHostAndPort` gives the two back, and the base
  -- URL is made of the scheme, the cleaned name and the port.
  pub host_and_port_of :
      (url : Text) (p : U.Url) (h : Text) (c : ℕ) (port : Text)
      → U.parse url ≡ ok p
      → U.host p ≡ h ++ b':' ∷ c ∷ port
      → all_digits (c ∷ port) ≡ true
      → (get_host_and_port U url ≡ ok (strip_brackets h, c ∷ port))
        × (extract_controller_base_url U url
            ≡ ok (base_url (U.scheme p) (clean_hostname (strip_brackets h)) (c ∷ port)))
  unfolding get_host_and_port extract_controller_base_url port_or_default
  host_and_port_of url p h c port parsed host digits =
      rw
        (
          get_host_and_port,
          extract_controller_base_url,
          parsed,
          host,
          split_host_port-colon h (c ∷ port) digits,
        )
        (refl, refl)

  -- The base URL of a URL with an IPv6 address and a port has the address without its brackets,
  -- where it is not a NetFoundry name.
  pub base_url_unbracketed :
      (url : Text) (p : U.Url) (address : Text) (c : ℕ) (port : Text)
      → U.parse url ≡ ok p
      → U.host p ≡ (b'[' ∷ (address ++ codes "]")) ++ b':' ∷ c ∷ port
      → all_digits (c ∷ port) ≡ true
      → contains address (codes ".netfoundry.io") ≡ false
      → extract_controller_base_url U url
        ≡ ok ((U.scheme p ++ (codes "://" ++ address)) ++ b':' ∷ c ∷ port)
  unfolding base_url clean_hostname bracketed
  base_url_unbracketed url p address c port parsed host digits plain =
      (host_and_port_of url p (bracketed address) c port parsed host digits).1
      ∙ ap (λ h. ok (base_url (U.scheme p) (clean_hostname h) (c ∷ port))) (strip_bracketed address)
      ∙ rw (plain) refl
