-- ===== src/ApiClient/Domains.antt =====
-- internal/controller/aquaducttaas/domain.go: the calls for domains, and the errors that the status codes of
-- their responses come to.
use weft_operator.Prelude.{
  ℕ, String, Option, none, some, Bool, ◌||◌, eqb, List, [], ◌∷◌, ◌==◌, if◌then◌else◌,
}
use weft_operator.Prelude.Text.{◌<>◌}
use weft_operator.Kube.{Answer, ok, err}
use weft_operator.DnsRecord.{ApiError, foreign, domain_not_found, api_other, Domain}
use weft_operator.ApiClient.{
  pos, HttpResponse, ApiDomain, Decoded, value, end_of_input, malformed, Wire, Network, Endpoints,
  Client, api_base_path, is_success, decoded, endpoint_of, new_request, authed_request,
}

-- The errors of a PATCH and a DELETE that the server refuses.
unfoldable pub is_refusal : ℕ → Bool
is_refusal code = eqb code 401 || (eqb code 403 || eqb code 409)

-- var d apiDomain
unfoldable pub no_domain : ApiDomain
no_domain = record { id = pos 0; domain_name = ""; bastion_ids = []; ips = [] }

-- A response without a domain name takes that of the request.
unfoldable pub named : String → ApiDomain → ApiDomain
named name d = if d.domain_name == "" then record d { domain_name = name } else d

module _ (lib : Wire) where
  unfoldable pub to_domain : ApiDomain → Domain
  to_domain d = record {
    id = lib.format_int d.id;
    name = d.domain_name;
    bastion_ids = d.bastion_ids;
    ips = d.ips;
  }

  -- An empty body is a success.
  abbrev pub body_answer : (ApiDomain → ApiDomain) → Decoded ApiDomain → Answer ApiError Domain
  body_answer f (value d) = ok (to_domain (f d))
  body_answer f end_of_input = ok (to_domain (f no_domain))
  body_answer f (malformed t) = err (api_other t)

  unfoldable pub domain_answer :
      String → (ApiDomain → ApiDomain) → HttpResponse → Answer ApiError Domain
  domain_answer doing f resp =
      if is_success resp.code
      then body_answer f (lib.decode_domain resp.body)
      else err (api_other (lib.status_text doing resp.code resp.body))

  unfoldable pub get_response : String → HttpResponse → Answer ApiError Domain
  get_response name resp =
      if eqb resp.code 404
      then err (domain_not_found "aquaduct.dev: domain not found")
      else if eqb resp.code 403
      then err (foreign (lib.foreign_text resp.code resp.body))
      else domain_answer ("getting domain " <> lib.quote name) (λ d. d) resp

  unfoldable pub put_response : String → HttpResponse → Answer ApiError Domain
  put_response name resp = domain_answer ("creating domain " <> lib.quote name) (named name) resp

  unfoldable pub patch_response : String → HttpResponse → Answer ApiError Domain
  patch_response name resp =
      if eqb resp.code 404
      then err (domain_not_found "aquaduct.dev: domain not found")
      else if is_refusal resp.code
      then err (foreign (lib.foreign_text resp.code resp.body))
      else domain_answer ("patching domain " <> lib.quote name) (named name) resp

  unfoldable pub delete_response : String → HttpResponse → Option ApiError
  delete_response name resp =
      if eqb resp.code 404
      then none
      else if is_refusal resp.code
      then some (foreign (lib.foreign_text resp.code resp.body))
      else if is_success resp.code
      then none
      else some
          (api_other (lib.status_text ("deleting domain " <> lib.quote name) resp.code resp.body))

  unfoldable pub lookup_response : String → HttpResponse → Answer ApiError (List String)
  lookup_response name resp =
      if is_success resp.code
      then decoded ok (lib.decode_ips resp.body)
      else err (api_other (lib.status_text ("looking up " <> lib.quote name) resp.code resp.body))

  abbrev pub of_response :
      {A : Type 0}
      → (HttpResponse → Answer ApiError A)
      → Answer ApiError HttpResponse
      → Answer ApiError A
  of_response f (err e) = err e
  of_response f (ok resp) = f resp

  abbrev pub error_of_response :
      (HttpResponse → Option ApiError) → Answer ApiError HttpResponse → Option ApiError
  error_of_response f (err e) = some e
  error_of_response f (ok resp) = f resp

  module _ {S : Type 0} (net : Network S) (conf : Endpoints) (ctx : Option String)
      (token name : String) where
    abbrev pub domain_url : String
    domain_url = endpoint_of lib conf ctx <> api_base_path <> "/domain/" <> lib.path_escape name

    unfoldable pub get_domain : Client S → Answer ApiError Domain × Client S
    get_domain c =
        let (a, c') =
          authed_request lib net conf token
            (λ jwt.
              new_request lib "GET" domain_url
                (("Authorization", "Bearer " <> jwt) ∷ ("Accept", "application/json") ∷ []) "")
            c in
        (of_response (get_response name) a, c')

    -- A PUT or a PATCH of the domain.
    unfoldable pub write_domain :
        String
        → Option (List String)
        → (HttpResponse → Answer ApiError Domain)
        → Client S
        → Answer ApiError Domain × Client S
    write_domain method ids f c = elim (lib.marshal_domain name ids) [
      | err t ↦ (err (api_other t), c)
      | ok body ↦
          let (a, c') =
            authed_request lib net conf token
              (λ jwt.
                new_request lib method domain_url
                  (("Authorization", "Bearer " <> jwt)
                    ∷ ("Content-Type", "application/json")
                    ∷ ("Accept", "application/json")
                    ∷ [])
                  body)
              c in
          (of_response f a, c')
    ]

    unfoldable pub put_domain : Option (List String) → Client S → Answer ApiError Domain × Client S
    put_domain ids c = write_domain "PUT" ids (put_response name) c

    unfoldable pub patch_domain :
        Option (List String) → Client S → Answer ApiError Domain × Client S
    patch_domain ids c = write_domain "PATCH" ids (patch_response name) c

    unfoldable pub delete_domain : Client S → Option ApiError × Client S
    delete_domain c =
        let (a, c') =
          authed_request lib net conf token
            (λ jwt.
              new_request lib "DELETE" domain_url (("Authorization", "Bearer " <> jwt) ∷ []) "")
            c in
        (error_of_response (delete_response name) a, c')

    unfoldable pub lookup_domain : Client S → Answer ApiError (List String) × Client S
    lookup_domain c =
        let (a, c') =
          authed_request lib net conf token
            (λ jwt.
              new_request lib "GET"
                (endpoint_of lib conf ctx
                  <> api_base_path
                  <> "/domain/lookup?domain="
                  <> lib.query_escape name)
                (("Authorization", "Bearer " <> jwt) ∷ ("Accept", "application/json") ∷ []) "")
            c in
        (of_response (lookup_response name) a, c')
