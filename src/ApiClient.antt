-- ===== src/ApiClient.antt =====
-- internal/controller/aquaducttaas/client.go: the client of the API of aquaduct.dev, over a network given
-- as a parameter. One call runs at a time: the mutex of the cache is not modelled.
pub mod Domains
pub mod Tokens
pub mod Requests
pub mod Cache
pub mod Ends
pub mod Answers
use weft_operator.Prelude.{
  ℕ, ◌+◌, ◌-◌, zero, suc, String, Option, none, some, Bool, true, false, ◌&&◌, ltb, leb, eqb, List,
  [], ◌∷◌, map, get_or, ◌==◌, if◌then◌else◌,
}
use weft_operator.Prelude.Text.{◌<>◌}
use weft_operator.Prelude.Assoc.{Assoc, lookup, put, remove}
use weft_operator.Kube.{Answer, ok, err}
use weft_operator.DnsRecord.{ApiError, api_other}
use weft_operator.AquaductTaas.{ExternalServer}

-- Go's int: `negsuc n` is -(n + 1).
pub data ℤ : Type 0 where
  pos negsuc : ℕ → ℤ

pub record HttpRequest : Type 0 where
  pub method : String
  pub url : String
  pub headers : Assoc String
  pub body : String

pub record HttpResponse : Type 0 where
  pub code : ℕ
  pub body : String

pub record ExchangeResponse : Type 0 where
  pub access_token : String
  pub token : String
  pub expires_in : ℤ

pub record ApiBastion : Type 0 where
  pub id : String
  pub name : String
  pub ip : String
  pub connection_secret : String
  pub suspended : Bool

pub record ApiDomain : Type 0 where
  pub id : ℤ
  pub domain_name : String
  pub bastion_ids : List String
  pub ips : List String

-- What a JSON decoder answers: a value, the end of an empty input, or another error.
pub data Decoded (A : Type 0) : Type 0 where
  value : A → Decoded A
  end_of_input : Decoded A
  malformed : String → Decoded A

-- The error of http.NewRequestWithContext for a URL, encoding/json, net/url, strconv, strings.TrimRight of
-- slashes, %q, and the texts that fmt.Errorf makes of a status code and a body.
pub record Wire : Type 0 where
  pub url_error : String → Option String
  pub marshal_suspended : Answer String String
  pub marshal_domain : String → Option (List String) → Answer String String
  pub decode_exchange : String → Answer String ExchangeResponse
  pub decode_bastions : String → Answer String (List ApiBastion)
  pub decode_domain : String → Decoded ApiDomain
  pub decode_ips : String → Answer String (List String)
  pub path_escape : String → String
  pub query_escape : String → String
  pub format_int : ℤ → String
  pub trim_slashes : String → String
  pub quote : String → String
  pub status_text : String → ℕ → String → String
  pub foreign_text : ℕ → String → String

-- http.Client.Do and the clock over the state of the world.
pub record Network (S : Type 0) : Type 0 where
  pub send : S → HttpRequest → Answer String HttpResponse × S
  pub now : S → ℕ

pub record Endpoints : Type 0 where
  pub endpoint : String
  pub authz_endpoint : String

pub record CachedJwt : Type 0 where
  pub jwt : String
  pub expires_at : ℕ

-- The cache, with the world.
pub record Client (S : Type 0) : Type 0 where
  pub jwts : Assoc CachedJwt
  pub world : S

abbrev pub api_base_path : String
api_base_path = "/api"

abbrev pub jwt_expiry_grace_period : ℕ
jwt_expiry_grace_period = 30

unfoldable pub new_http_api_client : String → String → Endpoints
new_http_api_client endpoint authz = record {
  endpoint = if endpoint == "" then "https://aquaduct.dev" else endpoint;
  authz_endpoint = if authz == "" then "https://authz.aquaduct.dev" else authz;
}

-- A response of the 200s.
unfoldable pub is_success : ℕ → Bool
is_success code = leb 200 code && ltb code 300

-- A time before all others where the response names no positive number of seconds.
unfoldable pub expires_at : ℕ → ℤ → ℕ
expires_at now (pos n) = if ltb 0 n then (now + n) - jwt_expiry_grace_period else 0
expires_at now (negsuc n) = 0

unfoldable pub exchanged : ℕ → ExchangeResponse → Answer ApiError (String × ℕ)
exchanged now er =
    let token = if er.token == "" then er.access_token else er.token in
    if token == ""
    then err (api_other "authz /auth/access-token returned empty token")
    else ok (token, expires_at now er.expires_in)

abbrev pub decoded : {A B : Type 0} → (A → Answer ApiError B) → Answer String A → Answer ApiError B
decoded f (err t) = err (api_other t)
decoded f (ok a) = f a

module _ (lib : Wire) where
  -- WithEndpoint, on the override that a context carries.
  unfoldable pub with_endpoint : Option String → String → Option String
  with_endpoint ctx endpoint = if endpoint == "" then ctx else some (lib.trim_slashes endpoint)

  unfoldable pub endpoint_of : Endpoints → Option String → String
  endpoint_of conf ctx = get_or ctx conf.endpoint

  -- http.NewRequestWithContext, with the headers that are set after it.
  unfoldable pub new_request : String → String → Assoc String → String → Answer ApiError HttpRequest
  new_request method url headers body = elim (lib.url_error url) [
    | some t ↦ err (api_other t)
    | none ↦ ok (record { method = method; url = url; headers = headers; body = body })
  ]

  abbrev pub login_answer : ℕ → Answer String HttpResponse → Answer ApiError (String × ℕ)
  login_answer now (err t) = err (api_other t)
  login_answer now (ok resp) =
      if is_success resp.code
      then decoded (exchanged now) (lib.decode_exchange resp.body)
      else err (api_other (lib.status_text "authz /auth/access-token" resp.code resp.body))

  module _ {S : Type 0} (net : Network S) (conf : Endpoints) where
    unfoldable pub login : String → S → Answer ApiError (String × ℕ) × S
    login access s =
        let headers =
          ("Authorization", "Bearer " <> access) ∷ ("Accept", "application/json") ∷ [] in
        elim (new_request "POST" (conf.authz_endpoint <> api_base_path <> "/auth/access-token")
          headers "") [
            | err e ↦ (err e, s)
            | ok req ↦ let (a, s') = net.send s req in (login_answer (net.now s') a, s')
          ]

    -- The cached JWT of an access token, unless it is stale.
    abbrev pub unexpired : ℕ → Option CachedJwt → Option String
    unexpired now none = none
    unexpired now (some e) = if ltb now e.expires_at then some e.jwt else none

    abbrev pub minted :
        String
        → Assoc CachedJwt
        → Answer ApiError (String × ℕ) × S
        → Answer ApiError String × Client S
    minted token jwts (err e, s) = (err e, record { jwts = jwts; world = s })
    minted token jwts (ok (jwt, expires), s) = (
      ok jwt,
      record { jwts = put token (record { jwt = jwt; expires_at = expires }) jwts; world = s },
    )

    unfoldable pub get_jwt : String → Client S → Answer ApiError String × Client S
    get_jwt token c = elim (unexpired (net.now c.world) (lookup token c.jwts)) [
      | some jwt ↦ (ok jwt, c)
      | none ↦ minted token c.jwts (login token c.world)
    ]

    unfoldable pub clear_jwt : String → Client S → Client S
    clear_jwt token c = record c { jwts = remove token c.jwts }

    abbrev pub with_sent :
        Assoc CachedJwt → Answer String HttpResponse × S → Answer ApiError HttpResponse × Client S
    with_sent jwts (err t, s) = (err (api_other t), record { jwts = jwts; world = s })
    with_sent jwts (ok resp, s) = (ok resp, record { jwts = jwts; world = s })

    abbrev pub with_request :
        Client S → Answer ApiError HttpRequest → Answer ApiError HttpResponse × Client S
    with_request c (err e) = (err e, c)
    with_request c (ok req) = with_sent c.jwts (net.send c.world req)

    module _ (token : String) (build : String → Answer ApiError HttpRequest) where
      abbrev pub with_jwt :
          Answer ApiError String × Client S → Answer ApiError HttpResponse × Client S
      with_jwt (err e, c) = (err e, c)
      with_jwt (ok jwt, c) = with_request c (build jwt)

      -- One round of the loop, up to its test for a retry.
      unfoldable pub attempt : Client S → Answer ApiError HttpResponse × Client S
      attempt c = with_jwt (get_jwt token c)

      abbrev pub is_unauthorized : Answer ApiError HttpResponse → Bool
      is_unauthorized (err e) = false
      is_unauthorized (ok resp) = eqb resp.code 401

      -- The loop with the number of rounds that are left, 2 at first.
      unfoldable pub attempts : ℕ → Client S → Answer ApiError HttpResponse × Client S
      attempts zero c = (err (api_other "unreachable"), c)
      attempts (suc n) c =
          let (a, c') = attempt c in
          let rest = attempts n (clear_jwt token c') in
          if is_unauthorized a && eqb n 1 then rest else (a, c')

      unfoldable pub authed_request : Client S → Answer ApiError HttpResponse × Client S
      authed_request c = attempts 2 c

    module _ (ctx : Option String) (token : String) where
      unfoldable pub external_server : ApiBastion → ExternalServer
      external_server b = record {
        id = b.id;
        name = b.name;
        ip = b.ip;
        connection_string = "weft://" <> b.connection_secret <> "@" <> b.ip <> ":9092";
        suspended = b.suspended;
      }

      abbrev pub list_answer : Answer ApiError HttpResponse → Answer ApiError (List ExternalServer)
      list_answer (err e) = err e
      list_answer (ok resp) =
          if is_success resp.code
          then decoded (λ bs. ok (map external_server bs)) (lib.decode_bastions resp.body)
          else err (api_other (lib.status_text "listing bastions" resp.code resp.body))

      unfoldable pub list_external_servers :
          Client S → Answer ApiError (List ExternalServer) × Client S
      list_external_servers c =
          let (a, c') =
            authed_request token
              (λ jwt.
                new_request "GET" (endpoint_of conf ctx <> api_base_path <> "/bastion")
                  (("Authorization", "Bearer " <> jwt) ∷ ("Accept", "application/json") ∷ []) "")
              c in
          (list_answer a, c')

      abbrev pub suspend_answer : String → Answer ApiError HttpResponse → Option ApiError
      suspend_answer id (err e) = some e
      suspend_answer id (ok resp) =
          if is_success resp.code
          then none
          else some
              (api_other (lib.status_text ("suspending " <> lib.quote id) resp.code resp.body))

      unfoldable pub suspend_server : String → Client S → Option ApiError × Client S
      suspend_server id c = elim lib.marshal_suspended [
        | err t ↦ (some (api_other t), c)
        | ok body ↦
            let (a, c') =
              authed_request token
                (λ jwt.
                  new_request "PATCH" (endpoint_of conf ctx <> api_base_path <> "/bastion/" <> id)
                    (("Authorization", "Bearer " <> jwt)
                      ∷ ("Content-Type", "application/json")
                      ∷ [])
                    body)
                c in
            (suspend_answer id a, c')
      ]
