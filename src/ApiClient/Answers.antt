-- ===== src/ApiClient/Answers.antt =====
-- What the responses of DELETE /domain in internal/controller/aquaducttaas/domain.go come to in the DNSRecord
-- controller that calls it.
use weft_operator.Prelude.{
  ℕ, String, none, some, ◌≡◌, refl, ◌⊎◌, inl, inr, Bool, true, false, ◌||◌, [], ◌∷◌, arith,
  Bool-cases, eqb, leb, ltb, ◌&&◌, if◌then◌else◌,
}
use weft_operator.Prelude.Text.{◌<>◌}
use weft_operator.DnsRecord.{foreign, api_other, DnsRecord, World}
use weft_operator.DnsRecord.Reconcile.{failure, drop_finalizer, after_delete}
use weft_operator.ApiClient.{HttpResponse, Wire, is_success}
use weft_operator.ApiClient.Domains.{is_refusal, delete_response}

-- The status codes 404, 401, 403, 409 and those of the 200s.
unfoldable pub is_released : ℕ → Bool
is_released code =
    eqb code 404
    || ((eqb code 401 || (eqb code 403 || eqb code 409)) || (leb 200 code && ltb code 300))

module _ (lib : Wire) (name : String) (resp : HttpResponse) where
  released_cases :
      is_released resp.code ≡ true
      → (delete_response lib name resp ≡ none)
        ⊎ ((t : String) × (delete_response lib name resp ≡ some (foreign t)))
  unfolding is_released delete_response is_refusal is_success
  released_cases h = elim (Bool-cases (eqb resp.code 404)) [
    | inl e ↦ inl (rw (e, delete_response) refl)
    | inr e ↦ elim (Bool-cases (is_refusal resp.code)) [
      | inl f ↦ inr (lib.foreign_text resp.code resp.body, rw (e, f, delete_response) refl)
      | inr f ↦
          let g : is_success resp.code ≡ true = rw (e, f, is_released) at h in
          inl (rw (e, f, g, delete_response) refl)
    ]
  ]

  refused_lem :
      is_released resp.code ≡ false
      → delete_response lib name resp
        ≡ some
            (api_other (lib.status_text ("deleting domain " <> lib.quote name) resp.code resp.body))
  unfolding is_released delete_response is_refusal is_success
  refused_lem h =
      let e : eqb resp.code 404 ≡ false = ground (arith, h) in
      let f : is_refusal resp.code ≡ false = ground (arith, h, e) in
      let g : is_success resp.code ≡ false = ground (arith, h, e, f) in
      rw (e, f, g, delete_response) refl

  -- In the deletion of a DNSRecord, a response of DELETE /domain with 404, a 2xx, 401, 403 or 409 lets the
  -- finalizer go, and every other one keeps it and reports the failure with the status and the body.
  pub after_delete-delete_response :
      (w : World) (dr : DnsRecord)
      → after_delete w dr (delete_response lib name resp) ≡ (
          if is_released resp.code
          then drop_finalizer w
          else failure w "Ready" "CleanupFailed" (
              w.sprintf "DELETE /domain/%s: %s" (
                dr.domain_name
                ∷ lib.status_text ("deleting domain " <> lib.quote name) resp.code resp.body
                ∷ [])))
  unfolding after_delete
  after_delete-delete_response w dr = elim (Bool-cases (is_released resp.code)) [
    | inl h ↦ elim (released_cases h) [ inl e ↦ rw (h, e) refl | inr (t, e) ↦ rw (h, e) refl ]
    | inr h ↦ rw (h, refused_lem h) refl
  ]
