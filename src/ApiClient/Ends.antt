-- ===== src/ApiClient/Ends.antt =====
-- How the loop of authedRequest in internal/controller/aquaducttaas/client.go ends with an error.
use weft_operator.Prelude.{String, ◌≡◌, refl, sym, ap, ◌∙◌, subst, inl, inr, Bool-cases, eqb}
use weft_operator.Kube.{Answer, ok, err}
use weft_operator.DnsRecord.{ApiError, api_other}
use weft_operator.ApiClient.{
  HttpRequest, HttpResponse, Wire, Network, Endpoints, Client, get_jwt, clear_jwt, with_sent,
  with_request, with_jwt, attempt, authed_request,
}
use weft_operator.ApiClient.Requests.{retried, authed_request-retried}

module _ (lib : Wire) {S : Type 0} (net : Network S) (conf : Endpoints) (token : String)
    (build : String → Answer ApiError HttpRequest) where
  -- The error is that of the exchange of the token, of the building of the request, or of its sending,
  -- and nothing is called after it.
  pub data IsErrorOf (e : ApiError) (c' : Client S) : Type 0 where
    no_token : (c : Client S) → get_jwt lib net conf token c ≡ (err e, c') → IsErrorOf e c'
    no_request : (jwt : String) → build jwt ≡ err e → IsErrorOf e c'
    no_response :
        (s : S) (req : HttpRequest) (t : String)
        → e ≡ api_other t
        → net.send s req ≡ (err t, c'.world)
        → IsErrorOf e c'

  sent_error :
      (c : Client S) (req : HttpRequest) (r : Answer String HttpResponse × S) (e : ApiError)
      → net.send c.world req ≡ r
      → (with_sent lib net conf c.jwts r).0 ≡ err e
      → IsErrorOf e (with_sent lib net conf c.jwts r).1
  sent_error c req (err t, s) e q h =
      no_response c.world req t (let k : api_other t ≡ e = cc h in sym k) q
  sent_error c req (ok x, s) e q h = cc h

  request_error :
      (c : Client S) (jwt : String) (r : Answer ApiError HttpRequest) (e : ApiError)
      → build jwt ≡ r
      → (with_request lib net conf c r).0 ≡ err e
      → IsErrorOf e (with_request lib net conf c r).1
  request_error c jwt (err x) e q h = let same : x ≡ e = cc h in no_request jwt (q ∙ ap err same)
  request_error c jwt (ok req) e q h = sent_error c req (net.send c.world req) e refl h

  token_error :
      (c : Client S) (r : Answer ApiError String × Client S) (e : ApiError)
      → get_jwt lib net conf token c ≡ r
      → (with_jwt lib net conf token build r).0 ≡ err e
      → IsErrorOf e (with_jwt lib net conf token build r).1
  token_error c (err x, z) e q h =
      let same : x ≡ e = cc h in no_token c (q ∙ ap (λ y. (err y, z)) same)
  token_error c (ok jwt, z) e q h = request_error z jwt (build jwt) e refl h

  attempt_error :
      (c : Client S) (e : ApiError)
      → (attempt lib net conf token build c).0 ≡ err e
      → IsErrorOf e (attempt lib net conf token build c).1
  unfolding attempt
  attempt_error c e h = token_error c (get_jwt lib net conf token c) e refl h

  retried_error :
      (r : Answer ApiError HttpResponse × Client S) (e : ApiError)
      → (r.0 ≡ err e → IsErrorOf e r.1)
      → (retried lib net conf token build r).0 ≡ err e
      → IsErrorOf e (retried lib net conf token build r).1
  retried_error (err x, z) e f h = f h
  retried_error (ok x, z) e f h = elim (Bool-cases (eqb x.code 401)) [
    | inr n ↦ let k : ok x ≡ err e = rw n at h in cc k
    | inl y ↦ rw y (attempt_error (clear_jwt lib net conf token z) e (rw y at h))
  ]

  -- The loop is left inside its two rounds: with a response, or with an error of one of the calls that it
  -- makes, never with the error after the loop.
  pub authed_request-IsErrorOf :
      (c : Client S) (e : ApiError)
      → (authed_request lib net conf token build c).0 ≡ err e
      → IsErrorOf e (authed_request lib net conf token build c).1
  authed_request-IsErrorOf c e h =
      subst (λ r. r.0 ≡ err e → IsErrorOf e r.1)
        (sym (authed_request-retried lib net conf token build c))
        (retried_error (attempt lib net conf token build c) e (attempt_error c e)) h
