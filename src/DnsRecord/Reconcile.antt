-- ===== src/DnsRecord/Reconcile.antt =====
-- `Reconcile` of internal/controller/dnsrecord/reconciler.go and the functions that it calls, as
-- passes over the record in memory and the calls made.
use weft_operator.Prelude.{
  ℕ, ◌-◌, String, Option, none, some, Bool, true, false, not, ◌&&◌, ◌||◌, List, [], ◌∷◌, is_empty,
  ◌==◌, leb, length, if◌then◌else◌,
}
use weft_operator.Prelude.Assoc.{Assoc, lookup}
use weft_operator.Prelude.Sort.{sort_strings}
use weft_operator.Kube.{
  Answer, ok, err, KubeError, not_found, already_exists, other, Return, done, failed, again, after,
  ignore_not_found, Flow, next, stop, State, Pass, pure, return, get, modify, emit, ◌>>=◌, ◌>>◌,
}
use weft_operator.DnsRecord.{
  ApiError, foreign, domain_not_found, api_other, error_text, Domain, SecretRef, Taas, Status,
  DnsRecord, Call, World,
}
use weft_operator.DnsRecord.Bastions.{Selection, select_bastions}

abbrev pub finalizer_name : String
finalizer_name = "weft.aquaduct.dev/unregister-on-delete"

abbrev pub resync_interval : ℕ
resync_interval = 300

abbrev pub error_retry : ℕ
error_retry = 30

-- The outcome of the registration: what the condition `Registered` says, and `patchForeign`.
pub record Registration : Type 0 where
  pub status : Bool
  pub reason : String
  pub message : String
  pub patch_foreign : Bool

-- The outcome of the lookup: what the condition `Resolved` says, and whether the lookup failed.
pub record Resolution : Type 0 where
  pub status : Bool
  pub reason : String
  pub message : String
  pub lookup_failed : Bool

abbrev pub Step : Type 0 → Type 0
Step = Pass DnsRecord Call

unfoldable pub strings_equal : List String → List String → Bool
strings_equal [] [] = true
strings_equal [] (b ∷ bs) = false
strings_equal (a ∷ as') [] = false
strings_equal (a ∷ as') (b ∷ bs) = a == b && strings_equal as' bs

module _ (w : World) where
  abbrev pub set_status : DnsRecord → Status → DnsRecord
  set_status dr st = record dr { status = st }

  -- meta.SetStatusCondition(&dr.Status.Conditions, …) with ObservedGeneration dr.Generation.
  unfoldable pub set_condition_of : String → Bool → String → String → DnsRecord → DnsRecord
  set_condition_of type status reason message dr = set_status dr (record dr.status {
    conditions =
        w.set_condition
          (record {
            type = type;
            status = status;
            reason = reason;
            message = message;
            observed_generation = dr.generation;
          })
          dr.status.conditions;
  })

  abbrev pub observe_generation : DnsRecord → DnsRecord
  observe_generation dr = set_status dr (record dr.status { observed_generation = dr.generation })

  unfoldable pub after_failure : Option KubeError → Return
  after_failure none = after error_retry
  after_failure (some not_found) = done
  after_failure (some already_exists) = failed already_exists
  after_failure (some (other m)) = failed (other m)

  -- `failure` always returns from the pass.
  unfoldable pub failure : {A : Type 0} → String → String → String → Step A
  failure type reason message = do
    modify (set_condition_of type false reason message)
    modify (set_condition_of "Ready" false reason message)
    modify observe_generation
    dr ← get
    emit (Call.update_status dr)
    return (after_failure (w.on_update_status dr))

  -- The last steps of `resolveAquaductTaaS`: the token in the Secret's data.
  unfoldable pub token_of : Taas → SecretRef → Option String → Step (Taas × String)
  token_of taas ref none =
      failure "Registered" "SecretError"
        (w.sprintf "secret %q has no key %q" (ref.name ∷ ref.key ∷ []))
  token_of taas ref (some token) =
      if token == ""
      then failure "Registered" "SecretError"
          (w.sprintf "secret %q key %q is empty" (ref.name ∷ ref.key ∷ []))
      else pure (taas, token)

  unfoldable pub secret_of :
      Taas → SecretRef → Answer KubeError (Assoc String) → Step (Taas × String)
  secret_of taas ref (ok entries) = token_of taas ref (lookup ref.key entries)
  secret_of taas ref (err not_found) =
      failure "Registered" "SecretError"
        (w.sprintf "secret %q not found in namespace %q" (ref.name ∷ taas.namespace ∷ []))
  secret_of taas ref (err already_exists) = return (failed already_exists)
  secret_of taas ref (err (other m)) = return (failed (other m))

  unfoldable pub credentials : Taas → Option SecretRef → Step (Taas × String)
  credentials taas none =
      failure "Registered" "SpecInvalid"
        (w.sprintf "AquaductTaaS %q has no spec.accessTokenSecretRef" (taas.name ∷ []))
  credentials taas (some ref) = secret_of taas ref (w.get_secret taas.namespace ref.name)

  unfoldable pub taas_of : DnsRecord → Answer KubeError Taas → Step (Taas × String)
  taas_of dr (ok taas) = credentials taas taas.access_token_secret_ref
  taas_of dr (err not_found) =
      failure "Registered" "MissingAquaductTaaS"
        (w.sprintf "AquaductTaaS %q not found in namespace %q" (dr.taas_ref ∷ dr.namespace ∷ []))
  taas_of dr (err already_exists) = return (failed already_exists)
  taas_of dr (err (other m)) = return (failed (other m))

  unfoldable pub resolve_aquaduct_taas : Step (Taas × String)
  resolve_aquaduct_taas = do
    dr ← get
    if dr.taas_ref == ""
        then failure "Registered" "SpecInvalid" "spec.aquaductTaaSRef.name is required"
        else taas_of dr (w.get_taas dr.namespace dr.taas_ref)

  unfoldable pub updated : DnsRecord → Return → Step (Unit {0})
  updated dr ret = elim (w.on_update dr) [ none ↦ return ret | some e ↦ return (failed e) ]

  -- controllerutil.RemoveFinalizer and the update.
  unfoldable pub drop_finalizer : Step (Unit {0})
  drop_finalizer = do
    modify (λ dr. record dr { finalizers = w.remove_finalizer dr.finalizers finalizer_name })
    dr ← get
    emit (Call.update dr)
    updated dr done

  unfoldable pub after_delete : DnsRecord → Option ApiError → Step (Unit {0})
  after_delete dr none = drop_finalizer
  after_delete dr (some (foreign t)) = drop_finalizer
  after_delete dr (some (domain_not_found t)) =
      failure "Ready" "CleanupFailed" (w.sprintf "DELETE /domain/%s: %s" (dr.domain_name ∷ t ∷ []))
  after_delete dr (some (api_other t)) =
      failure "Ready" "CleanupFailed" (w.sprintf "DELETE /domain/%s: %s" (dr.domain_name ∷ t ∷ []))

  unfoldable pub handle_deletion : Step (Unit {0})
  handle_deletion = do
    dr ← get
    if not (w.contains_finalizer dr.finalizers finalizer_name) then return done else do
      (taas, token) ← resolve_aquaduct_taas
      emit (Call.delete_domain dr.domain_name)
      after_delete dr (w.on_delete taas.api_endpoint token dr.domain_name)

  unfoldable pub refused : String → DnsRecord → Registration
  refused format dr = record {
    status = false;
    reason = "ForeignOwned";
    message = w.sprintf format (dr.domain_name ∷ []);
    patch_foreign = true;
  }

  unfoldable pub registered : String → DnsRecord → Domain → Registration
  registered format dr d = record {
    status = true;
    reason = "Registered";
    message = w.sprintf format (dr.domain_name ∷ d.id ∷ w.itoa (length d.bastion_ids) ∷ []);
    patch_foreign = false;
  }

  unfoldable pub applied : Domain → DnsRecord → DnsRecord
  applied d dr = set_status dr (record dr.status {
    domain_id = d.id;
    applied_bastion_ids = d.bastion_ids;
    applied_ips = d.ips;
  })

  unfoldable pub after_put : DnsRecord → Answer ApiError Domain → Step Registration
  after_put dr (ok d) = do
    modify (applied d)
    modify (λ r. set_status r (record r.status { clobbered_preexisting = false }))
    pure (registered "Domain %q registered (id=%s, bastions=%d)" dr d)
  after_put dr (err e) =
      failure "Registered" "RegisterFailed"
        (w.sprintf "PUT /domain/%s: %s" (dr.domain_name ∷ error_text e ∷ []))

  unfoldable pub after_patch : DnsRecord → Answer ApiError Domain → Step Registration
  after_patch dr (ok d) = do
    modify (λ r.
        if r.status.domain_id == ""
        then set_status r (record r.status { clobbered_preexisting = true })
        else r)
    modify (applied d)
    pure (registered "Domain %q is registered (id=%s, bastions=%d)" dr d)
  after_patch dr (err (foreign t)) =
      pure (refused "PATCH /domain/%s refused — record belongs to a different user" dr)
  after_patch dr (err (domain_not_found t)) = return again
  after_patch dr (err (api_other t)) =
      failure "Registered" "APIError" (w.sprintf "PATCH /domain/%s: %s" (dr.domain_name ∷ t ∷ []))

  module _ (endpoint token : String) where
    unfoldable pub after_get : DnsRecord → List String → Answer ApiError Domain → Step Registration
    after_get dr ids (err (foreign t)) =
        pure (refused "GET /domain/%s refused — record belongs to a different user" dr)
    after_get dr ids (err (domain_not_found t)) = do
      emit (Call.put_domain dr.domain_name ids)
      after_put dr (w.on_put endpoint token dr.domain_name ids)
    after_get dr ids (err (api_other t)) =
        failure "Registered" "APIError" (w.sprintf "GET /domain/%s: %s" (dr.domain_name ∷ t ∷ []))
    after_get dr ids (ok d) = do
      emit (Call.patch_domain dr.domain_name ids)
      after_patch dr (w.on_patch endpoint token dr.domain_name ids)

    -- The GET of the domain and the switch on its answer.
    unfoldable pub register : List String → Step Registration
    register ids = do
      dr ← get
      emit (Call.get_domain dr.domain_name)
      after_get dr ids (w.on_get endpoint token dr.domain_name)

    -- The switch on the addresses that the lookup found.
    unfoldable pub judge : List String → List String → Resolution
    judge expected ips =
        let verdict : Bool → String → String → Resolution = λ status reason message. record {
          status = status;
          reason = reason;
          message = message;
          lookup_failed = false;
        } in
        if is_empty expected
        then (if is_empty ips
            then verdict true "NoTargets" "no bastions to fan to and no A records present"
            else verdict false "UnexpectedRecords"
                (w.sprintf "expected no A records, got %d" (w.itoa (length ips) ∷ [])))
        else if strings_equal ips expected
        then verdict true "Resolved"
            (w.sprintf "%d A record(s) match expected bastion IPs" (w.itoa (length ips) ∷ []))
        else verdict false "Mismatched"
            (w.sprintf "expected %v, got %v" (w.sprint_list expected ∷ w.sprint_list ips ∷ []))

    unfoldable pub after_lookup :
        DnsRecord → List String → Answer String (List String) → Step Resolution
    after_lookup dr expected (err t) = pure (record {
      status = false;
      reason = "LookupFailed";
      message = w.sprintf "GET /domain/lookup?domain=%s: %s" (dr.domain_name ∷ t ∷ []);
      lookup_failed = true;
    })
    after_lookup dr expected (ok found) = do
      let ips = sort_strings found
      modify (λ r. set_status r (record r.status { resolved_ips = ips }))
      pure (judge expected ips)

    unfoldable pub resolve : List String → Step Resolution
    resolve expected = do
      dr ← get
      emit (Call.lookup_domain dr.domain_name)
      after_lookup dr expected (w.on_lookup endpoint token dr.domain_name)

  -- The heartbeat has gone stale.
  unfoldable pub is_stale : Option ℕ → Bool
  is_stale none = true
  is_stale (some t) = leb resync_interval (w.now - t)

  -- The test of `commitStatus`: nothing but the heartbeat changed, and that is fresh.
  unfoldable pub is_current : Status → Option ℕ → DnsRecord → Bool
  is_current before last_sync dr =
      w.deep_equal (record before { last_sync_time = none })
        (record dr.status { last_sync_time = none })
      && not (is_stale last_sync)

  unfoldable pub write_status : Step (Option KubeError)
  write_status = do
    modify (λ r. set_status r (record r.status { last_sync_time = some w.now }))
    changed ← get
    emit (Call.update_status changed)
    pure (w.on_update_status changed)

  unfoldable pub skip_status : Option ℕ → Step (Option KubeError)
  skip_status last_sync = do
    modify (λ r. set_status r (record r.status { last_sync_time = last_sync }))
    pure none

  -- `commitStatus`
  unfoldable pub commit_status : Status → Option ℕ → Step (Option KubeError)
  commit_status before last_sync = do
    dr ← get
    if is_current before last_sync dr then skip_status last_sync else write_status

  -- The three conditions, from the registration and the resolution.
  unfoldable pub conclude : Registration → Resolution → DnsRecord → DnsRecord
  conclude reg res dr =
      let external = reg.patch_foreign && res.status in
      let reason = if external then "ExternallyManaged" else reg.reason in
      let message =
        if external
        then w.sprintf
            "Domain %q is registered to a different user, but DNS records match the expected bastion IPs"
            (dr.domain_name ∷ [])
        else reg.message in
      let one = set_condition_of "Registered" reg.status reason message dr in
      let two = set_condition_of "Resolved" res.status res.reason res.message one in
      let three =
        if res.status
        then set_condition_of "Ready" true "Ready" "domain records match expected bastion IPs" two
        else set_condition_of "Ready" false res.reason res.message two in
      observe_generation three

  unfoldable pub committed : Resolution → Option KubeError → Step (Unit {0})
  committed res (some e) = return (failed e)
  committed res none =
      return (after (if res.lookup_failed || not res.status then error_retry else resync_interval))

  -- From the registration to the end of the pass.
  unfoldable pub drive : Status → Taas → String → Selection → Step (Unit {0})
  drive before taas token chosen = do
    modify (λ r. set_status r (record r.status { expected_ips = chosen.ips }))
    reg ← register taas.api_endpoint token chosen.ids
    res ← resolve taas.api_endpoint token chosen.ips
    last ← get
    modify (conclude reg res)
    result ← commit_status before last.status.last_sync_time
    committed res result

  -- The checks of the bastion list.
  unfoldable pub with_bastions : Status → Taas → String → DnsRecord → Option ℕ → Step (Unit {0})
  with_bastions before taas token dr none =
      failure "Registered" "WaitingForBastions"
        (w.sprintf "AquaductTaaS %q has not yet published its bastion list" (taas.name ∷ []))
  with_bastions before taas token dr (some _) =
      let chosen = select_bastions taas.bastions dr.target_bastion_ids in
      if not (is_empty chosen.missing)
      then failure "Registered" "UnknownBastion" (
          w.sprintf "spec.targetBastionIDs references unknown bastion(s): %v"
            (w.sprint_list chosen.missing ∷ []))
      else drive before taas token chosen

  unfoldable pub sync : Status → Taas → String → Step (Unit {0})
  sync before taas token = do dr ← get; with_bastions before taas token dr taas.last_sync_time

  unfoldable pub add_own_finalizer : Step (Unit {0})
  add_own_finalizer = do
    modify (λ dr. record dr { finalizers = w.add_finalizer dr.finalizers finalizer_name })
    dr ← get
    emit (Call.update dr)
    updated dr again

  unfoldable pub pass : Step (Unit {0})
  pass = do
    dr ← get
    if not w.has_client
        then failure "Registered" "ConfigError"
            "DNSRecordReconciler has no APIClient configured; check operator deployment"
        else if dr.deleting
        then handle_deletion
        else if not (w.contains_finalizer dr.finalizers finalizer_name)
        then add_own_finalizer
        else (do (taas, token) ← resolve_aquaduct_taas; sync dr.status taas token)

  unfoldable pub ending : Flow (Unit {0}) × State DnsRecord Call → Return × State DnsRecord Call
  ending (next a, s) = (done, s)
  ending (stop r, s) = (r, s)

  -- `Reconcile`, from the answer to the first read.
  unfoldable pub reconcile : Answer KubeError DnsRecord → DnsRecord → Return × State DnsRecord Call
  reconcile (ok dr) zero_record = ending (pass (record { object = dr; calls = [] }))
  reconcile (err e) zero_record = (ignore_not_found e, record { object = zero_record; calls = [] })
