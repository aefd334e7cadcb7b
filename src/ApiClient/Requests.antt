-- ===== src/ApiClient/Requests.antt =====
-- The loop of authedRequest in internal/controller/aquaducttaas/client.go: whose JWT the request of a
-- passed response carries.
use weft_operator.Prelude.{
  ℕ, String, none, ◌≡◌, refl, sym, ap, subst, inl, inr, Bool, true, false, ◌&&◌, eqb, Bool-cases,
  if◌then◌else◌,
}
use weft_operator.Prelude.Assoc.{lookup}
use weft_operator.Kube.{Answer, ok, err}
use weft_operator.DnsRecord.{ApiError}
use weft_operator.ApiClient.{
  HttpRequest, HttpResponse, Wire, Network, Endpoints, Client, login, get_jwt, clear_jwt, with_sent,
  with_request, with_jwt, attempt, is_unauthorized, attempts, authed_request,
}
use weft_operator.ApiClient.Tokens.{
  IsMinted, IsOwn, IsToken, get_jwt-IsToken, clear_jwt-IsOwn, cleared,
}

-- The test of the first round for a retry is true there, that of the second is false.
two_rounds :
    {A : Type 0} (u v : Bool) (x y z : A)
    → (if u && true then (if v && false then z else y) else x) ≡ (if u then y else x)
two_rounds true true x y z = refl
two_rounds true false x y z = refl
two_rounds false v x y z = refl

module _ (lib : Wire) {S : Type 0} (net : Network S) (conf : Endpoints) where
  module _ (token : String) (build : String → Answer ApiError HttpRequest) where
    -- The response answers a request that was built with a JWT of the token.
    pub record IsAnswered (c : Client S) (resp : HttpResponse) (c' : Client S) : Type 0 where
      pub jwt : String
      pub request : HttpRequest
      pub before : S
      pub own : IsMinted lib net conf token jwt
      pub built : build jwt ≡ ok request
      pub sent : net.send before request ≡ (ok resp, c'.world)
      pub fresh :
          lookup token c.jwts ≡ none
          → (n : ℕ) × (login lib net conf token c.world ≡ (ok (jwt, n), before))

    with_sent_lem :
        (c : Client S) (r : Answer String HttpResponse × S) (resp : HttpResponse)
        → (with_sent lib net conf c.jwts r).0 ≡ ok resp
        → (r ≡ (ok resp, (with_sent lib net conf c.jwts r).1.world))
    with_sent_lem c (err t, s) resp h = cc h
    with_sent_lem c (ok x, s) resp h = let same : x ≡ resp = cc h in ap (λ y. (ok y, s)) same

    with_sent-IsOwn :
        (c : Client S) (r : Answer String HttpResponse × S)
        → IsOwn lib net conf c
        → IsOwn lib net conf (with_sent lib net conf c.jwts r).1
    unfolding IsOwn
    with_sent-IsOwn c (err t, s) own = own
    with_sent-IsOwn c (ok x, s) own = own

    with_request-IsOwn :
        (c : Client S) (r : Answer ApiError HttpRequest)
        → IsOwn lib net conf c
        → IsOwn lib net conf (with_request lib net conf c r).1
    with_request-IsOwn c (err e) own = own
    with_request-IsOwn c (ok req) own = with_sent-IsOwn c (net.send c.world req) own

    with_jwt-IsOwn :
        (r : Answer ApiError String × Client S)
        → IsOwn lib net conf r.1
        → IsOwn lib net conf (with_jwt lib net conf token build r).1
    with_jwt-IsOwn (err e, c) own = own
    with_jwt-IsOwn (ok jwt, c) own = with_request-IsOwn c (build jwt) own

    with_request_lem :
        (c : Client S) (r : Answer ApiError HttpRequest) (resp : HttpResponse)
        → (with_request lib net conf c r).0 ≡ ok resp
        → (req : HttpRequest) × (r ≡ ok req)
          × (net.send c.world req ≡ (ok resp, (with_request lib net conf c r).1.world))
    with_request_lem c (err e) resp h = cc h
    with_request_lem c (ok req) resp h = (req, refl, with_sent_lem c (net.send c.world req) resp h)

    with_jwt-IsAnswered :
        (c : Client S) (r : Answer ApiError String × Client S) (resp : HttpResponse)
        → IsToken lib net conf token c r
        → (with_jwt lib net conf token build r).0 ≡ ok resp
        → IsAnswered c resp (with_jwt lib net conf token build r).1
    with_jwt-IsAnswered c (err e, z) resp t h = cc h
    with_jwt-IsAnswered c (ok jwt, z) resp (o, t) h =
        let (req, b, k) = with_request_lem z (build jwt) resp h in
        let (m, f) = t jwt refl in
        record {
          jwt = jwt;
          request = req;
          before = z.world;
          own = m;
          built = b;
          sent = k;
          fresh = f;
        }

    attempt_lem :
        (c : Client S)
        → IsOwn lib net conf c
        → IsOwn lib net conf (attempt lib net conf token build c).1
          × ((resp : HttpResponse)
              → (attempt lib net conf token build c).0 ≡ ok resp
              → IsAnswered c resp (attempt lib net conf token build c).1)
    unfolding attempt
    attempt_lem c own =
        let t = get_jwt-IsToken lib net conf token c own in
        (
          with_jwt-IsOwn (get_jwt lib net conf token c) t.0,
          λ resp h. with_jwt-IsAnswered c (get_jwt lib net conf token c) resp t h,
        )

    -- The two rounds: the second is run where the response to the first is a 401.
    abbrev pub retried :
        Answer ApiError HttpResponse × Client S → Answer ApiError HttpResponse × Client S
    retried r =
        if is_unauthorized lib net conf token build r.0
        then attempt lib net conf token build (clear_jwt lib net conf token r.1)
        else r

    pub authed_request-retried :
        (c : Client S)
        → authed_request lib net conf token build c ≡ retried (attempt lib net conf token build c)
    unfolding authed_request attempts
    authed_request-retried c =
        two_rounds (is_unauthorized lib net conf token build (attempt lib net conf token build c).0)
          _ _ _ _

    -- A 401 that is passed on answers a request with a JWT that was minted since the cache was cleared lib net conf.
    pub record IsChecked (resp : HttpResponse) (c' : Client S) : Type 0 where
      pub start : Client S
      pub answered : IsAnswered start resp c'
      pub renewed : eqb resp.code 401 ≡ true → lookup token start.jwts ≡ none

    retried_lem :
        (c : Client S) (r : Answer ApiError HttpResponse × Client S)
        → IsOwn lib net conf r.1
        → ((resp : HttpResponse) → r.0 ≡ ok resp → IsAnswered c resp r.1)
        → IsOwn lib net conf (retried r).1
          × ((resp : HttpResponse) → (retried r).0 ≡ ok resp → IsChecked resp (retried r).1)
    retried_lem c (err e, z) own f = (own, λ resp h. cc h)
    retried_lem c (ok x, z) own f = elim (Bool-cases (eqb x.code 401)) [
      | inr n ↦ rw n (
        own,
        λ resp h.
            let same : x ≡ resp = cc h in
            record {
              start = c;
              answered = f resp h;
              renewed = λ y.
                  let k : eqb x.code 401 ≡ true =
                    subst (λ (w : HttpResponse). eqb w.code 401 ≡ true) (sym same) y in
                  cc (n, k);
            },
      )
      | inl y ↦
          let start = clear_jwt lib net conf token z in
          let (o, g) = attempt_lem start (clear_jwt-IsOwn lib net conf token z own) in
          rw y (
            o,
            λ resp h. record {
              start = start;
              answered = g resp h;
              renewed = λ _. cleared lib net conf token z;
            },
          )
    ]

    -- Where each cached JWT belongs to its access token, this is so after a request too, whatever its end. A
    -- response that is passed on answers a request that was built with a JWT of this access token, and
    -- where it is a 401, authz had minted that JWT for this very request.
    pub authed_request-IsOwn :
        (c : Client S)
        → IsOwn lib net conf c
        → IsOwn lib net conf (authed_request lib net conf token build c).1
          × ((resp : HttpResponse)
              → (authed_request lib net conf token build c).0 ≡ ok resp
              → IsChecked resp (authed_request lib net conf token build c).1)
    authed_request-IsOwn c own =
        let (o, f) = attempt_lem c own in
        subst
          (λ r.
            IsOwn lib net conf r.1 × ((resp : HttpResponse) → r.0 ≡ ok resp → IsChecked resp r.1))
          (sym (authed_request-retried c)) (retried_lem c (attempt lib net conf token build c) o f)
