-- ===== src/Serve/Failover.antt =====
-- Which endpoint the failover of `createZitiClientWithFailover` settles on.
use ziti_k8s_agent.Base.{
  ◌≡◌, refl, ap, ◌∙◌, ◌↔◌, Option, List, [], ◌∷◌, arith, Text, Result, ok, err, panic,
}
use ziti_k8s_agent.Url.{UrlLib}
use ziti_k8s_agent.Serve.Clients.{TlsLib, client, create_ziti_client_with_failover, or_next}

module _ {W Cert Key Pool EdgeClient : Type 0} (T : TlsLib W Cert Key Pool EdgeClient) (U : UrlLib)
    (cert : Cert) (key : Key) (pool : Pool) where
  abbrev pub attempt : Text → W → Result (Option EdgeClient) × W
  attempt endpoint =
      client T U (record { api_endpoint = endpoint; cert = cert; private_key = key; cas = pool })

  -- The first endpoint for which a client can be made, after those before it failed in turn.
  pub data Chosen : List Text → W → Option EdgeClient → W → Type 0 where
    here :
        {endpoint : Text} {endpoints : List Text} {w w' : W} {zc : Option EdgeClient}
        → attempt endpoint w ≡ (ok zc, w')
        → Chosen (endpoint ∷ endpoints) w zc w'
    later :
        {endpoint : Text} {endpoints : List Text} {w w' : W} {zc : Option EdgeClient} (e : Text)
        (w₁ : W)
        → attempt endpoint w ≡ (err e, w₁)
        → Chosen endpoints w₁ zc w'
        → Chosen (endpoint ∷ endpoints) w zc w'

  Chosen-of_next :
      (endpoint : Text) (endpoints : List Text) (k : Text → W → Result (Option EdgeClient) × W)
      (w w' : W) (zc : Option EdgeClient) (p : Result (Option EdgeClient) × W)
      → attempt endpoint w ≡ p
      → ((m : Text) (w₁ : W) → k m w₁ ≡ (ok zc, w') → Chosen endpoints w₁ zc w')
      → or_next T U p k ≡ (ok zc, w')
      → Chosen (endpoint ∷ endpoints) w zc w'
  Chosen-of_next endpoint endpoints k w w' zc (ok c, w₁) e more h = here (e ∙ h)
  Chosen-of_next endpoint endpoints k w w' zc (err m, w₁) e more h = later m w₁ e (more m w₁ h)
  Chosen-of_next endpoint endpoints k w w' zc (panic, w₁) e more h = absurd (ground arith)

  Chosen-of_ok :
      (endpoints : List Text) (last : Text) (w w' : W) (zc : Option EdgeClient)
      → create_ziti_client_with_failover T U last endpoints cert key pool w ≡ (ok zc, w')
      → Chosen endpoints w zc w'
  unfolding create_ziti_client_with_failover
  Chosen-of_ok [] last w w' zc h = absurd (ground arith)
  Chosen-of_ok (endpoint ∷ endpoints) last w w' zc h =
      Chosen-of_next endpoint endpoints _ w w' zc (attempt endpoint w) refl
        (λ m w₁. Chosen-of_ok endpoints m w₁ w' zc) h

  ok_of_Chosen :
      {endpoints : List Text} {w w' : W} {zc : Option EdgeClient} (last : Text)
      → Chosen endpoints w zc w'
      → create_ziti_client_with_failover T U last endpoints cert key pool w ≡ (ok zc, w')
  unfolding create_ziti_client_with_failover
  ok_of_Chosen last (here {endpoints = endpoints} e) =
      ap (λ p. or_next T U p (λ m. create_ziti_client_with_failover T U m endpoints cert key pool))
        e
  ok_of_Chosen last (later {endpoints = endpoints} m w₁ e c) =
      ap (λ p. or_next T U p (λ m. create_ziti_client_with_failover T U m endpoints cert key pool))
        e
      ∙ ok_of_Chosen m c

  -- The failover returns without an error exactly if the client for some endpoint is made without one
  -- after all before it failed with an error; it returns the client of the first such endpoint, which
  -- is nil where its controller is refused without an error, and no later endpoint is tried.
  pub failover_iff :
      (endpoints : List Text) (last : Text) (w w' : W) (zc : Option EdgeClient)
      → (create_ziti_client_with_failover T U last endpoints cert key pool w ≡ (ok zc, w'))
        ↔ Chosen endpoints w zc w'
  failover_iff endpoints last w w' zc = (Chosen-of_ok endpoints last w w' zc, ok_of_Chosen last)
