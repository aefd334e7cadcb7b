-- ===== src/ApiClient/Tokens.antt =====
-- The token cache of internal/controller/aquaducttaas/client.go: the entries of getJWT.
use weft_operator.Prelude.{
  ℕ, String, Option, none, some, ◌≡◌, refl, sym, ap, ◌∙◌, subst, inl, inr, ltb, eq_refl, Bool-cases,
  Option-cases, text_cases,
}
use weft_operator.Prelude.Assoc.{lookup, put, lookup-put, lookup-remove}
use weft_operator.Kube.{Answer, ok, err}
use weft_operator.DnsRecord.{ApiError}
use weft_operator.ApiClient.{
  Wire, Network, Endpoints, CachedJwt, Client, login, unexpired, minted, get_jwt, clear_jwt,
}

module _ (lib : Wire) {S : Type 0} (net : Network S) (conf : Endpoints) where
  -- authz answered an exchange of the access token with the JWT.
  pub record IsMinted (token jwt : String) : Type 0 where
    pub before : S
    pub after : S
    pub expires : ℕ
    pub exchange : login lib net conf token before ≡ (ok (jwt, expires), after)

  -- Every entry of the cache is a JWT of its own access token.
  unfoldable pub IsOwn : Client S → Type 0
  IsOwn c = (token : String) (e : CachedJwt) → lookup token c.jwts ≡ some e → IsMinted token e.jwt

  pub unexpired_lem :
      (now : ℕ) (o : Option CachedJwt) (jwt : String)
      → unexpired lib net conf now o ≡ some jwt
      → (e : CachedJwt) × (o ≡ some e) × (e.jwt ≡ jwt)
  unexpired_lem now none jwt h = cc h
  unexpired_lem now (some e) jwt h = elim (Bool-cases (ltb now e.expires_at)) [
    | inl p ↦ let k : some e.jwt ≡ some jwt = rw p at h in (e, refl, cc k)
    | inr p ↦ let k : none ≡ some jwt = rw p at h in cc k
  ]

  -- The cache with a new entry for a token is the old one elsewhere.
  put-IsOwn :
      (token : String) (e : CachedJwt) (c : Client S) (s : S)
      → IsOwn c
      → IsMinted token e.jwt
      → IsOwn (record { jwts = put token e c.jwts; world = s })
  unfolding IsOwn
  put-IsOwn token e c s own m t f h = elim (text_cases token t) [
    | inl (p, q) ↦
        let k : some e ≡ some f = sym (lookup-put token t e c.jwts ∙ rw p refl) ∙ h in
        let same : e ≡ f = cc k in
        subst (λ x. IsMinted x f.jwt) q (subst (λ (x : CachedJwt). IsMinted token x.jwt) same m)
    | inr (p, q) ↦ own t f (sym (lookup-put token t e c.jwts ∙ rw p refl) ∙ h)
  ]

  pub clear_jwt-IsOwn :
      (token : String) (c : Client S) → IsOwn c → IsOwn (clear_jwt lib net conf token c)
  unfolding IsOwn clear_jwt
  clear_jwt-IsOwn token c own t f h = elim (text_cases token t) [
    | inl (p, q) ↦
        let k : none ≡ some f = sym (lookup-remove token t c.jwts ∙ rw p refl) ∙ h in cc k
    | inr (p, q) ↦ own t f (sym (lookup-remove token t c.jwts ∙ rw p refl) ∙ h)
  ]

  minted_lem :
      (token : String) (c : Client S) (r : Answer ApiError (String × ℕ) × S)
      → IsOwn c
      → login lib net conf token c.world ≡ r
      → IsOwn (minted lib net conf token c.jwts r).1
        × ((jwt : String)
            → (minted lib net conf token c.jwts r).0 ≡ ok jwt
            → (n : ℕ) × (login lib net conf token c.world
                ≡ (ok (jwt, n), (minted lib net conf token c.jwts r).1.world)))
  unfolding IsOwn
  minted_lem token c (err e, s) own q = (own, λ jwt h. cc h)
  minted_lem token c (ok (jwt, n), s) own q = (
    put-IsOwn token (record { jwt = jwt; expires_at = n }) c s own
        (record { before = c.world; after = s; expires = n; exchange = q }),
    λ j h. let same : jwt ≡ j = cc h in (n, q ∙ ap (λ x. (ok (x, n), s)) same),
  )

  pub get_jwt_hit :
      (token jwt : String) (c : Client S)
      → unexpired lib net conf (net.now c.world) (lookup token c.jwts) ≡ some jwt
      → get_jwt lib net conf token c ≡ (ok jwt, c)
  unfolding get_jwt
  get_jwt_hit token jwt c e = rw (e, get_jwt) refl

  pub get_jwt_miss :
      (token : String) (c : Client S)
      → unexpired lib net conf (net.now c.world) (lookup token c.jwts) ≡ none
      → get_jwt lib net conf token c
        ≡ minted lib net conf token c.jwts (login lib net conf token c.world)
  unfolding get_jwt
  get_jwt_miss token c e = rw (e, get_jwt) refl

  -- The JWT is one of the token, and has been minted just now if none was cached.
  abbrev pub IsToken : String → Client S → Answer ApiError String × Client S → Type 0
  IsToken token c r =
      IsOwn r.1
      × ((jwt : String)
          → r.0 ≡ ok jwt
          → IsMinted token jwt
            × (lookup token c.jwts ≡ none
                → (n : ℕ) × (login lib net conf token c.world ≡ (ok (jwt, n), r.1.world))))

  pub get_jwt-IsToken :
      (token : String) (c : Client S) → IsOwn c → IsToken token c (get_jwt lib net conf token c)
  unfolding IsOwn
  get_jwt-IsToken token c own =
      elim (Option-cases (unexpired lib net conf (net.now c.world) (lookup token c.jwts))) [
        | inr (j, e) ↦
            let (x, q, p) = unexpired_lem (net.now c.world) (lookup token c.jwts) j e in
            subst (λ r. IsToken token c r) (sym (get_jwt_hit token j c e))
              (
                own,
                λ jwt h.
                    let same : j ≡ jwt = cc h in
                    (
                      subst (λ y. IsMinted token y) (p ∙ same) (own token x q),
                      λ n. let k : none ≡ some x = sym n ∙ q in cc k,
                    ),
              )
        | inl e ↦
            let (o, f) = minted_lem token c (login lib net conf token c.world) own refl in
            subst (λ r. IsToken token c r) (sym (get_jwt_miss token c e))
              (
                o,
                λ jwt h.
                    let (n, k) = f jwt h in
                    (
                      record { before = c.world; after = _; expires = n; exchange = k },
                      λ _. (n, k),
                    ),
              )
      ]

  pub cleared :
      (token : String) (c : Client S) → lookup token (clear_jwt lib net conf token c).jwts ≡ none
  unfolding clear_jwt
  cleared token c = lookup-remove token token c.jwts ∙ rw (eq_refl token) refl
