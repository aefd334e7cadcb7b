-- ===== src/ApiClient/Cache.antt =====
-- The reuse of a JWT by getJWT of internal/controller/aquaducttaas/client.go.
use weft_operator.Prelude.{
  ℕ, String, some, ◌≡◌, refl, sym, ap, ◌∙◌, subst, inl, inr, true, ltb, Option-cases, eq_refl,
}
use weft_operator.Prelude.Assoc.{lookup, lookup-put}
use weft_operator.Kube.{Answer, ok, err}
use weft_operator.DnsRecord.{ApiError}
use weft_operator.ApiClient.{
  Wire, Network, Endpoints, CachedJwt, Client, login, unexpired, minted, get_jwt,
}
use weft_operator.ApiClient.Tokens.{unexpired_lem, get_jwt_hit, get_jwt_miss}

module _ (lib : Wire) {S : Type 0} (net : Network S) (conf : Endpoints) (token : String) where
  -- The cache holds the JWT of the answer.
  abbrev IsCached : Answer ApiError String × Client S → Type 0
  IsCached r =
      (jwt : String)
      → r.0 ≡ ok jwt
      → (e : CachedJwt) × (lookup token r.1.jwts ≡ some e) × (e.jwt ≡ jwt)

  minted-IsCached :
      (c : Client S) (r : Answer ApiError (String × ℕ) × S)
      → IsCached (minted lib net conf token c.jwts r)
  minted-IsCached c (err e, s) jwt h = cc h
  minted-IsCached c (ok (j, n), s) jwt h =
      let new : CachedJwt = record { jwt = j; expires_at = n } in
      (new, lookup-put token token new c.jwts ∙ rw (eq_refl token) refl, cc h)

  get_jwt-IsCached : (c : Client S) → IsCached (get_jwt lib net conf token c)
  get_jwt-IsCached c =
      elim (Option-cases (unexpired lib net conf (net.now c.world) (lookup token c.jwts))) [
        | inr (j, e) ↦
            let (x, q, p) =
              unexpired_lem lib net conf (net.now c.world) (lookup token c.jwts) j e in
            subst IsCached (sym (get_jwt_hit lib net conf token j c e))
              (λ jwt h. (x, q, p ∙ (let k : j ≡ jwt = cc h in k)))
        | inl e ↦
            subst IsCached (sym (get_jwt_miss lib net conf token c e))
              (minted-IsCached c (login lib net conf token c.world))
      ]

  -- A JWT that getJWT has returned is returned again, without a call, until the time that is noted for it.
  pub get_jwt-get_jwt :
      (c : Client S) (jwt : String) (s : S) (e : CachedJwt)
      → (get_jwt lib net conf token c).0 ≡ ok jwt
      → lookup token (get_jwt lib net conf token c).1.jwts ≡ some e
      → ltb (net.now s) e.expires_at ≡ true
      → get_jwt lib net conf token
          (record { jwts = (get_jwt lib net conf token c).1.jwts; world = s })
        ≡ (ok jwt, record { jwts = (get_jwt lib net conf token c).1.jwts; world = s })
  get_jwt-get_jwt c jwt s e h q t =
      let (x, p, m) = get_jwt-IsCached c jwt h in
      let same : x ≡ e = let k : some x ≡ some e = sym p ∙ q in cc k in
      let fresh : unexpired lib net conf (net.now s) (some e) ≡ some jwt =
        rw t (ap some (ap (λ (y : CachedJwt). y.jwt) (sym same) ∙ m)) in
      get_jwt_hit lib net conf token jwt
        (record { jwts = (get_jwt lib net conf token c).1.jwts; world = s })
        (ap (λ o. unexpired lib net conf (net.now s) o) q ∙ fresh)
