-- ===== src/Tests/ApiClientRuns.antt =====
-- Runs of the client of internal/controller/aquaducttaas on a network whose first JWT is refused.
use weft_operator.Prelude.{
  ℕ, ◌+◌, String, Option, none, some, ◌≡◌, refl, Bool, false, eqb, [], ◌∷◌, ◌==◌, if◌then◌else◌,
}
use weft_operator.Prelude.Text.{◌<>◌}
use weft_operator.Prelude.Assoc.{lookup, put, remove}
use weft_operator.Kube.{Answer, ok, err}
use weft_operator.DnsRecord.{ApiError, api_other}
use weft_operator.DnsRecord.Reconcile.{failure, drop_finalizer, after_delete}
use weft_operator.Tests.DnsRecordRuns.{site, world}
use weft_operator.ApiClient.{
  pos, HttpRequest, HttpResponse, Wire, end_of_input, Network, Endpoints, Client,
  new_http_api_client, exchanged, expires_at, is_success, new_request, login, get_jwt, clear_jwt,
  attempt, attempts, authed_request,
}
use weft_operator.ApiClient.Answers.{is_released, after_delete-delete_response}
use weft_operator.ApiClient.Domains.{delete_response}
use weft_operator.ApiClient.Cache.{get_jwt-get_jwt}
use weft_operator.ApiClient.Ends.{IsErrorOf, authed_request-IsErrorOf}
use weft_operator.ApiClient.Tokens.{IsOwn}
use weft_operator.ApiClient.Requests.{IsChecked, authed_request-IsOwn}

abbrev wire : Wire
wire = record {
  url_error = λ url. if url == "bad" then some "invalid URL" else none;
  marshal_suspended = ok "{\"suspended\":true}";
  marshal_domain = λ name ids. ok name;
  decode_exchange = λ body. ok (record { access_token = ""; token = body; expires_in = pos 60 });
  decode_bastions = λ body. ok [];
  decode_domain = λ body. end_of_input;
  decode_ips = λ body. ok [];
  path_escape = λ s. s;
  query_escape = λ s. s;
  format_int = λ n. "0";
  trim_slashes = λ s. s;
  quote = λ s. "\"" <> s <> "\"";
  status_text = λ doing code body. "aquaduct.dev API failed " <> doing <> ": " <> body;
  foreign_text = λ code body. body;
}

-- Whether a request carries the JWT that is refused.
abbrev is_first : Option String → Bool
is_first none = false
is_first (some t) = t == "Bearer first"

-- The answer to a request; the time is the number of requests before it.
abbrev served : ℕ → HttpRequest → HttpResponse
served s req =
    if req.method == "POST"
    then record { code = 200; body = if eqb s 0 then "first" else "second" }
    else record {
      code = if is_first (lookup "Authorization" req.headers) then 401 else 200;
      body = "done";
    }

abbrev network : Network ℕ
network = record { send = λ s req. (ok (served s req), s + 1); now = λ s. s }

-- No server answers.
abbrev silence : Network ℕ
silence = record { send = λ s req. (err "no route to host", s + 1); now = λ s. s }

abbrev defaults : Endpoints
unfolding new_http_api_client
defaults = new_http_api_client "" ""

abbrev fresh_client : Client ℕ
fresh_client = record { jwts = []; world = 0 }

abbrev get_one : String → Answer ApiError HttpRequest
unfolding new_request
get_one jwt =
    new_request wire "GET" "https://aquaduct.dev/api/bastion"
      (("Authorization", "Bearer " <> jwt) ∷ []) ""

abbrev answered : Answer ApiError HttpResponse × Client ℕ
answered = authed_request wire network defaults "token" get_one fresh_client

answered_run : answered.0 ≡ ok (record { code = 200; body = "done" })
unfolding authed_request attempts attempt get_jwt lookup login new_request defaults is_success
    exchanged clear_jwt remove put
answered_run = refl

no_entry : IsOwn wire network defaults fresh_client
unfolding IsOwn lookup
no_entry t e h = cc h

authed_request-IsOwn_example :
    IsOwn wire network defaults answered.1
    × ((resp : HttpResponse)
        → answered.0 ≡ ok resp
        → IsChecked wire network defaults "token" get_one resp answered.1)
authed_request-IsOwn_example =
    authed_request-IsOwn wire network defaults "token" get_one fresh_client no_entry

abbrev unanswered : Answer ApiError HttpResponse × Client ℕ
unanswered = authed_request wire silence defaults "token" get_one fresh_client

unanswered_run : unanswered.0 ≡ err (api_other "no route to host")
unfolding authed_request attempts attempt get_jwt lookup login new_request defaults
unanswered_run = refl

authed_request-IsErrorOf_example :
    IsErrorOf wire silence defaults "token" get_one (api_other "no route to host") unanswered.1
authed_request-IsErrorOf_example =
    authed_request-IsErrorOf wire silence defaults "token" get_one fresh_client
      (api_other "no route to host") unanswered_run

abbrev first_jwt : Answer ApiError String × Client ℕ
first_jwt = get_jwt wire network defaults "token" fresh_client

first_jwt_run : first_jwt.0 ≡ ok "first"
unfolding get_jwt lookup login new_request defaults is_success exchanged
first_jwt_run = refl

first_entry_run : lookup "token" first_jwt.1.jwts ≡ some (record { jwt = "first"; expires_at = 31 })
unfolding get_jwt lookup login new_request defaults is_success exchanged put expires_at
first_entry_run = refl

get_jwt-get_jwt_example :
    get_jwt wire network defaults "token" (record { jwts = first_jwt.1.jwts; world = 30 })
    ≡ (ok "first", record { jwts = first_jwt.1.jwts; world = 30 })
get_jwt-get_jwt_example =
    get_jwt-get_jwt wire network defaults "token" fresh_client "first" 30
      (record { jwt = "first"; expires_at = 31 }) first_jwt_run first_entry_run refl

-- A domain that another account holds.
abbrev forbidden : HttpResponse
forbidden = record { code = 403; body = "not yours" }

after_delete-delete_response_example :
    after_delete world site (delete_response wire "example" forbidden) ≡ (
      if is_released 403
      then drop_finalizer world
      else failure world "Ready" "CleanupFailed" (
          world.sprintf "DELETE /domain/%s: %s" (
            site.domain_name
            ∷ wire.status_text ("deleting domain " <> wire.quote "example") 403 "not yours"
            ∷ [])))
after_delete-delete_response_example =
    after_delete-delete_response wire "example" forbidden world site
