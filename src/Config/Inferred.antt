-- ===== src/Config/Inferred.antt =====
-- Which endpoints are inferred from an identity, and in which order.
use ziti_k8s_agent.Base.{
  ◌≡◌, refl, sym, ap, ◌∙◌, inl, inr, List, [], ◌∷◌, ◌++◌, append-nil, append_assoc, Text, text_eq,
  is_empty, if◌then◌else◌, Bool-cases, Result, ok, err, panic,
}
use ziti_k8s_agent.Url.{UrlLib}
use ziti_k8s_agent.Config.Identity.{ZitiIdentityConfig}
use ziti_k8s_agent.Config.Endpoints.{
  convert_to_mgmt_api, append_converted, primary, additional, endpoints_of,
}

-- The URLs to convert: the primary one, then the others that are not it.
unfoldable pub others : Text → List Text → List Text
others zt_api [] = []
others zt_api (url ∷ urls) =
    if text_eq url zt_api then others zt_api urls else url ∷ others zt_api urls

module _ (U : UrlLib) where
  abbrev pub converted_or_none : Result Text → List Text
  converted_or_none r = append_converted U r []

  -- The conversions of the URLs that are not empty and can be converted.
  unfoldable pub converted : List Text → List Text
  converted [] = []
  converted (url ∷ urls) =
      if is_empty url
      then converted urls
      else converted_or_none (convert_to_mgmt_api U url) ++ converted urls

  append_converted_lem :
      (r : Result Text) (endpoints : List Text)
      → append_converted U r endpoints ≡ endpoints ++ converted_or_none r
  append_converted_lem (ok url) endpoints = refl
  append_converted_lem (err e) endpoints = sym (append-nil endpoints)
  append_converted_lem panic endpoints = sym (append-nil endpoints)

  additional_lem :
      (zt_api : Text) (urls endpoints : List Text)
      → additional U zt_api urls endpoints ≡ endpoints ++ converted (others zt_api urls)
  unfolding additional converted others
  additional_lem zt_api [] endpoints = sym (append-nil endpoints)
  additional_lem zt_api (url ∷ urls) endpoints = elim (Bool-cases (text_eq url zt_api)) [
    | inl same ↦ elim (Bool-cases (is_empty url)) [
      | inl e ↦ rw (same, e) (additional_lem zt_api urls endpoints)
      | inr e ↦ rw (same, e) (additional_lem zt_api urls endpoints)
    ]
    | inr differs ↦ elim (Bool-cases (is_empty url)) [
      | inl e ↦ rw (differs, e) (additional_lem zt_api urls endpoints)
      | inr e ↦
          rw (differs, e)
            (additional_lem zt_api urls (append_converted U (convert_to_mgmt_api U url) endpoints)
              ∙ ap (λ t. t ++ converted (others zt_api urls))
                  (append_converted_lem (convert_to_mgmt_api U url) endpoints)
              ∙ append_assoc endpoints _ _)
    ]
  ]

  first_of :
      (zt_api : Text) (urls : List Text)
      → primary U zt_api ++ converted urls ≡ converted (zt_api ∷ urls)
  unfolding converted
  first_of zt_api urls = elim (Bool-cases (is_empty zt_api)) [
    | inl e ↦ rw e refl
    | inr e ↦ rw e refl
  ]

  -- The inferred endpoints are the conversions of `ztAPI` and then of the `ztAPIs` that differ from
  -- it, in their order, without those that are empty or that cannot be parsed.
  pub endpoints_of_lem :
      (identity : ZitiIdentityConfig)
      → endpoints_of U identity
        ≡ converted (identity.zt_api ∷ others identity.zt_api identity.zt_apis)
  unfolding endpoints_of converted
  endpoints_of_lem identity =
      additional_lem identity.zt_api identity.zt_apis (primary U identity.zt_api)
      ∙ first_of identity.zt_api (others identity.zt_api identity.zt_apis)
