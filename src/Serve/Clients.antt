-- ===== src/Serve/Clients.antt =====
-- The Ziti client: `zitiClientImpl` and `createZitiClientWithFailover` of
-- ziti-agent/cmd/webhook/webhook.go, and `Client` of ziti-agent/pkg/ziti-edge/client.go. The
-- certificate parsers, the verification of the controller and the generated client are parameters.
use ziti_k8s_agent.Base.{
  Option, none, some, List, [], ◌∷◌, ◌++◌, Text, codes, Result, ok, err, panic,
}
use ziti_k8s_agent.Base.{Bool, true, false, Action, ◌>>=◌, pure, lift, trim_prefix}
use ziti_k8s_agent.Url.{UrlLib, extract_controller_base_url, reconstitute_mgmt_api_url}
use ziti_k8s_agent.Config.Identity.{ZitiIdentityConfig}

-- `zitiedge.Config`
pub record ClientConfig (Cert Key Pool : Type 0) : Type 0 where
  pub api_endpoint : Text
  pub cert : Cert
  pub private_key : Key
  pub cas : Pool

-- What the agent takes from crypto/tls, crypto/x509 and rest_util.
pub record TlsLib (W Cert Key Pool EdgeClient : Type 0) : Type 1 where
  -- The certificates of a key pair, still encoded, and its private key.
  pub x509_key_pair : Text → Text → Result (List Text × Key)
  pub parse_certificate : Text → Result Cert
  -- `AppendCertsFromPEM` on an empty pool; `none` where it appends nothing.
  pub pool_of_pem : Text → Option Pool
  -- `VerifyController`: whether the controller is verified, and the error.
  pub verify_controller : Text → Pool → W → (Bool × Option Text) × W
  pub new_client : Cert → Key → Text → Pool → Action W EdgeClient

module _ {W Cert Key Pool EdgeClient : Type 0} (T : TlsLib W Cert Key Pool EdgeClient)
    (U : UrlLib) where
  -- An error with a text in front of it.
  abbrev pub wrapped : {A : Type 0} → Text → Action W A → Action W A
  wrapped message m w =
      let (r, w') = m w in
      elim r [ ok a ↦ (ok a, w') | err e ↦ (err (message ++ e), w') | panic ↦ (panic, w') ]

  -- `errors.Wrap` of the error of a controller that is not verified: nil where there is none, and
  -- then the call returns a nil client and no error.
  abbrev pub unverified : Option Text → Result (Option EdgeClient)
  unverified none = ok none
  unverified (some e) = err (codes "controller verification failed: " ++ e)

  abbrev pub if_verified :
      Action W (Option EdgeClient) → (Bool × Option Text) × W → Result (Option EdgeClient) × W
  if_verified next ((true, e), w) = next w
  if_verified next ((false, e), w) = (unverified e, w)

  -- The client, or nil.
  unfoldable pub client : ClientConfig Cert Key Pool → Action W (Option EdgeClient)
  client cfg = do
    base ←
        wrapped (codes "failed to extract base controller URL: ")
          (lift (extract_controller_base_url U cfg.api_endpoint))
    λ w.
        if_verified
          (wrapped (codes "failed to create edge management client: ")
              (T.new_client cfg.cert cfg.private_key (reconstitute_mgmt_api_url base) cfg.cas)
            >>= λ made. pure (some made))
          (T.verify_controller base cfg.cas w)

  abbrev pub failover_error : Text → Text
  failover_error last =
      codes "failed to connect to any management API endpoint, last error: " ++ last

  -- A client, which may be nil, is returned; an error goes on to the next endpoint.
  abbrev pub or_next :
      Result (Option EdgeClient) × W
      → (Text → Action W (Option EdgeClient))
      → Result (Option EdgeClient) × W
  or_next (ok zc, w) k = (ok zc, w)
  or_next (err e, w) k = k e w
  or_next (panic, w) k = (panic, w)

  -- The loop, with the last error; a nil one is printed by `%w` as it stands here.
  unfoldable pub create_ziti_client_with_failover :
      Text → List Text → Cert → Key → Pool → Action W (Option EdgeClient)
  unfolding client
  create_ziti_client_with_failover last [] cert key pool w = (err (failover_error last), w)
  create_ziti_client_with_failover last (endpoint ∷ endpoints) cert key pool w =
      or_next
        (client (record { api_endpoint = endpoint; cert = cert; private_key = key; cas = pool }) w)
        (λ e. create_ziti_client_with_failover e endpoints cert key pool)

  abbrev pub nil_error : Text
  nil_error = codes "%!w(<nil>)"

  abbrev pub first_certificate : List Text → Result Text
  first_certificate [] = err (codes "no certificates found in TLS key pair")
  first_certificate (cert ∷ certs) = ok cert

  abbrev pub pool_or_error : Option Pool → Result Pool
  pool_or_error none = err (codes "failed to append CA certificates from PEM")
  pool_or_error (some pool) = ok pool

  abbrev pub client_of_identity : ZitiIdentityConfig → List Text → Action W (Option EdgeClient)
  client_of_identity identity endpoints = do
    pair ← wrapped (codes "failed to parse X509 key pair: ") (
        lift (
          T.x509_key_pair (trim_prefix identity.cert (codes "pem:"))
            (trim_prefix identity.key (codes "pem:"))))
    encoded ← lift (first_certificate pair.0)
    cert ← lift (T.parse_certificate encoded)
    pool ← lift (pool_or_error (T.pool_of_pem identity.ca))
    create_ziti_client_with_failover nil_error endpoints cert pair.1 pool

  -- With `zitiIdentity`, nil until it is loaded, and the endpoints of `runtimeConfig`.
  unfoldable pub ziti_client_impl :
      Option ZitiIdentityConfig → List Text → Action W (Option EdgeClient)
  unfolding create_ziti_client_with_failover
  ziti_client_impl none endpoints w = (err (codes "ziti identity not loaded"), w)
  ziti_client_impl (some identity) endpoints w = client_of_identity identity endpoints w
