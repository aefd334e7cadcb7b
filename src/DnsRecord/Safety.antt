-- ===== src/DnsRecord/Safety.antt =====
-- The calls of a pass over a DNSRecord: internal/controller/dnsrecord/reconciler.go.
use weft_operator.Prelude.{
  ℕ, String, Option, none, some, ◌≡◌, refl, ap, Bool, true, false, not, ◌⊎◌, inl, inr, List, [],
  All, is_empty, arith, ◌==◌, if◌then◌else◌, Option-cases, Bool-cases,
}
use weft_operator.Prelude.Assoc.{Assoc, lookup}
use weft_operator.Prelude.Sort.{sort_strings}
use weft_operator.Kube.{
  Answer, ok, err, KubeError, not_found, already_exists, other, Return, done, Flow, next, stop,
  State, return, get, emit, again, ◌>>=◌, ◌>>◌,
}
use weft_operator.Kube.Keeps.{
  Keeps, Keeps-pure, Keeps-return, Keeps-get, Keeps-modify, Keeps-emit, Keeps-if, Keeps-bind, Keeps,
  Ends, Ends-Keeps, Ends-if, Ends-bind, Ends-modify,
}
use weft_operator.DnsRecord.{
  ApiError, foreign, domain_not_found, api_other, Domain, SecretRef, Taas, Status, DnsRecord, Call,
  World,
}
use weft_operator.DnsRecord.Bastions.{select_bastions}
use weft_operator.DnsRecord.Reconcile

module _ (w : World) (dr : DnsRecord) where
  -- The fields of the record in memory that a pass does not change, with its finalizers.
  abbrev pub SameBut : List String → DnsRecord → Type 0
  SameBut finalizers r =
      (r.domain_name ≡ dr.domain_name)
      × (r.target_bastion_ids ≡ dr.target_bastion_ids)
      × (r.namespace ≡ dr.namespace)
      × (r.taas_ref ≡ dr.taas_ref)
      × (r.finalizers ≡ finalizers)

  abbrev SameSpec : DnsRecord → Type 0
  SameSpec = SameBut dr.finalizers

  -- The AquaductTaaS that the record names, with the token that its Secret has for it.
  pub record IsAuthorized (taas : Taas) (token : String) : Type 0 where
    pub named : w.get_taas dr.namespace dr.taas_ref ≡ ok taas
    pub ref : SecretRef
    pub ref_is : taas.access_token_secret_ref ≡ some ref
    pub entries : Assoc String
    pub secret : w.get_secret taas.namespace ref.name ≡ ok entries
    pub token_is : lookup ref.key entries ≡ some token

  -- A write of the domain: the record is not being deleted and carries the operator's finalizer, the
  -- domain is the record's, and the bastions are those that `selectBastions` takes from the list of
  -- the AquaductTaaS that the record names, with none missing.
  pub record MayWrite (domain : String) (ids : List String) : Type 0 where
    pub alive : dr.deleting ≡ false
    pub held : w.contains_finalizer dr.finalizers Reconcile.finalizer_name ≡ true
    pub domain_same : domain ≡ dr.domain_name
    pub taas : Taas
    pub named : w.get_taas dr.namespace dr.taas_ref ≡ ok taas
    pub chosen : ids ≡ (select_bastions taas.bastions dr.target_bastion_ids).ids
    pub complete : is_empty (select_bastions taas.bastions dr.target_bastion_ids).missing ≡ true

  -- The domain API deleted the record's domain, or said that it is someone else's, when asked at the
  -- endpoint of the record's AquaductTaaS with its token.
  pub record IsUnregistered : Type 0 where
    pub deleting : dr.deleting ≡ true
    pub held : w.contains_finalizer dr.finalizers Reconcile.finalizer_name ≡ true
    pub taas : Taas
    pub token : String
    pub authorized : IsAuthorized taas token
    pub answer :
        (w.on_delete taas.api_endpoint token dr.domain_name ≡ none)
        ⊎ ((t : String) × (w.on_delete taas.api_endpoint token dr.domain_name ≡ some (foreign t)))

  -- An update of the object: its finalizers are those that were read with the operator's added, and it is
  -- alive and lacked it, or those with the operator's removed, and it is unregistered.
  abbrev pub MayUpdate : DnsRecord → Type 0
  MayUpdate r =
      (SameBut (w.add_finalizer dr.finalizers Reconcile.finalizer_name) r
        × (dr.deleting ≡ false)
        × (w.contains_finalizer dr.finalizers Reconcile.finalizer_name ≡ false))
      ⊎ (SameBut (w.remove_finalizer dr.finalizers Reconcile.finalizer_name) r × IsUnregistered)

  abbrev pub Justified : Call → Type 0
  Justified (Call.update r) = MayUpdate r
  Justified (Call.update_status r) = Unit
  Justified (Call.get_domain d) = d ≡ dr.domain_name
  Justified (Call.put_domain d ids) = MayWrite d ids
  Justified (Call.patch_domain d ids) = MayWrite d ids
  Justified (Call.delete_domain d) =
      (dr.deleting ≡ true)
      × (w.contains_finalizer dr.finalizers Reconcile.finalizer_name ≡ true)
      × (d ≡ dr.domain_name)
  Justified (Call.lookup_domain d) = d ≡ dr.domain_name

  abbrev Good : {A : Type 0} → (A → Type 0) → Reconcile.Step A → Type 0
  Good V m = Keeps SameSpec Justified V m

  abbrev Right : {A : Type 0} → (DnsRecord → Type 0) → Reconcile.Step A → Type 0
  Right Q m = Ends Q Justified m

  abbrev Any : {A : Type 0} → A → Type 0
  Any a = Unit

  failure-Good :
      {A : Type 0} {V : A → Type 0} (type reason message : String)
      → Good V (Reconcile.failure w {A = A} type reason message)
  unfolding Reconcile.failure Reconcile.set_condition_of
  failure-Good type reason message =
      Keeps-bind (Keeps-modify (Reconcile.set_condition_of w type false reason message) (λ a q. q))
        (λ _ _.
          Keeps-bind
            (Keeps-modify (Reconcile.set_condition_of w "Ready" false reason message) (λ a q. q))
            (λ _ _. Keeps-bind (Keeps-modify (Reconcile.observe_generation w) (λ a q. q)) (λ _ _.
              Keeps-bind Keeps-get (λ a q.
                Keeps-bind (Keeps-emit (Call.update_status a) tt) (λ _ _. Keeps-return _)))))

  abbrev Named : Taas × String → Type 0
  Named r = IsAuthorized r.0 r.1

  token_of-Good :
      (taas : Taas) (ref : SecretRef) (o : Option String)
      → ((token : String) → o ≡ some token → IsAuthorized taas token)
      → Good Named (Reconcile.token_of w taas ref o)
  unfolding Reconcile.token_of
  token_of-Good taas ref none k = failure-Good _ _ _
  token_of-Good taas ref (some token) k =
      Keeps-if (token == "") _ _ (λ _. failure-Good _ _ _) (λ _. Keeps-pure _ (k token refl))

  secret_of-Good :
      (taas : Taas) (ref : SecretRef) (a : Answer KubeError (Assoc String))
      → w.get_taas dr.namespace dr.taas_ref ≡ ok taas
      → taas.access_token_secret_ref ≡ some ref
      → w.get_secret taas.namespace ref.name ≡ a
      → Good Named (Reconcile.secret_of w taas ref a)
  unfolding Reconcile.secret_of
  secret_of-Good taas ref (ok entries) e r q =
      token_of-Good taas ref (lookup ref.key entries) (λ token t. record {
        named = e;
        ref = ref;
        ref_is = r;
        entries = entries;
        secret = q;
        token_is = t;
      })
  secret_of-Good taas ref (err not_found) e r q = failure-Good _ _ _
  secret_of-Good taas ref (err already_exists) e r q = Keeps-return _
  secret_of-Good taas ref (err (other m)) e r q = Keeps-return _

  taas_of-Good :
      (r : DnsRecord) (a : Answer KubeError Taas)
      → w.get_taas dr.namespace dr.taas_ref ≡ a
      → Good Named (Reconcile.taas_of w r a)
  unfolding Reconcile.taas_of Reconcile.credentials
  taas_of-Good r (ok taas) e = elim (Option-cases taas.access_token_secret_ref) [
    | inl n ↦ rw (n, Reconcile.credentials) (failure-Good _ _ _)
    | inr (ref, n) ↦ rw (n, Reconcile.credentials) (secret_of-Good taas ref _ e n refl)
  ]
  taas_of-Good r (err not_found) e = failure-Good _ _ _
  taas_of-Good r (err already_exists) e = Keeps-return _
  taas_of-Good r (err (other m)) e = Keeps-return _

  resolve_taas-Good : Good Named (Reconcile.resolve_aquaduct_taas w)
  unfolding Reconcile.resolve_aquaduct_taas
  resolve_taas-Good = Keeps-bind Keeps-get (λ a q.
      Keeps-if (a.taas_ref == "") _ _ (λ _. failure-Good _ _ _)
        (λ _. taas_of-Good a _ (cc (q.2, q.3))))

  updated-Keeps :
      (finalizers : List String) (r : DnsRecord) (ret : Return)
      → Keeps (SameBut finalizers) Justified Any (Reconcile.updated w r ret)
  unfolding Reconcile.updated
  updated-Keeps finalizers r ret = elim (Option-cases (w.on_update r)) [
    | inl n ↦ rw (n, Reconcile.updated) (Keeps-return _)
    | inr (e, n) ↦ rw (n, Reconcile.updated) (Keeps-return _)
  ]

  -- The end of an update whose object is known by its finalizers.
  update-Right :
      (finalizers : List String) (ret : Return)
      → ((r : DnsRecord) → SameBut finalizers r → MayUpdate r)
      → Right (SameBut finalizers) (do a ← get; emit (Call.update a); Reconcile.updated w a ret)
  update-Right finalizers ret u = Ends-Keeps (
      Keeps-bind {W = Any} Keeps-get (λ a q.
        Keeps-bind (Keeps-emit (Call.update a) (u a q)) (λ _ _. updated-Keeps finalizers a ret)))

  drop_finalizer-Right : IsUnregistered → Right SameSpec (Reconcile.drop_finalizer w)
  unfolding Reconcile.drop_finalizer
  drop_finalizer-Right u =
      Ends-modify
        (λ r. record r { finalizers = w.remove_finalizer r.finalizers Reconcile.finalizer_name })
        (λ a q. (q.0, q.1, q.2, q.3, ap (λ fs. w.remove_finalizer fs Reconcile.finalizer_name) q.4))
        (update-Right (w.remove_finalizer dr.finalizers Reconcile.finalizer_name) done
          (λ r q. inr (q, u)))

  after_delete-Right :
      (r : DnsRecord) (taas : Taas) (token : String) (o : Option ApiError)
      → dr.deleting ≡ true
      → w.contains_finalizer dr.finalizers Reconcile.finalizer_name ≡ true
      → IsAuthorized taas token
      → w.on_delete taas.api_endpoint token dr.domain_name ≡ o
      → Right SameSpec (Reconcile.after_delete w r o)
  unfolding Reconcile.after_delete
  after_delete-Right r taas token none d c k e = drop_finalizer-Right (record {
    deleting = d;
    held = c;
    taas = taas;
    token = token;
    authorized = k;
    answer = inl e;
  })
  after_delete-Right r taas token (some (foreign t)) d c k e = drop_finalizer-Right (record {
    deleting = d;
    held = c;
    taas = taas;
    token = token;
    authorized = k;
    answer = inr (t, e);
  })
  after_delete-Right r taas token (some (domain_not_found t)) d c k e =
      Ends-Keeps (failure-Good {V = Any} _ _ _)
  after_delete-Right r taas token (some (api_other t)) d c k e =
      Ends-Keeps (failure-Good {V = Any} _ _ _)

  abbrev start : State DnsRecord Call
  start = record { object = dr; calls = [] }

  abbrev FromStart : {A : Type 0} → Reconcile.Step A → Type 0
  FromStart m = All Justified (m start).1.calls

  of_Good : {A : Type 0} {V : A → Type 0} (m : Reconcile.Step A) → Good V m → FromStart m
  of_Good m g = (g.at start (refl, refl, refl, refl, refl) tt).1

  of_lem : {A : Type 0} (m : Reconcile.Step A) → Right SameSpec m → FromStart m
  of_lem m g = g.calls_right start (refl, refl, refl, refl, refl) tt

  not-false : (b : Bool) → not b ≡ false → b ≡ true
  not-false b h = ground arith

  not-true : (b : Bool) → not b ≡ true → b ≡ false
  not-true b h = ground arith

  handle_deletion-FromStart : dr.deleting ≡ true → FromStart (Reconcile.handle_deletion w)
  unfolding Reconcile.handle_deletion ◌>>=◌
  handle_deletion-FromStart d =
      let contained = w.contains_finalizer dr.finalizers Reconcile.finalizer_name in
      of_lem
        (if not contained then return done else (do
          (taas, token) ← Reconcile.resolve_aquaduct_taas w
          emit (Call.delete_domain dr.domain_name)
          Reconcile.after_delete w dr (w.on_delete taas.api_endpoint token dr.domain_name)))
        (Ends-if (not contained) _ _ (λ _. Ends-Keeps (Keeps-return {V = Any} _))
          (λ f. Ends-bind resolve_taas-Good (λ r n.
            Ends-bind
              (Keeps-emit (Call.delete_domain dr.domain_name) (d, not-false contained f, refl))
              (λ _ _. after_delete-Right dr r.0 r.1 _ d (not-false contained f) n refl))))

  after_put-Good :
      (r : DnsRecord) (a : Answer ApiError Domain) → Good Any (Reconcile.after_put w r a)
  unfolding Reconcile.after_put
  after_put-Good r (ok d) =
      Keeps-bind (Keeps-modify (Reconcile.applied w d) (unfold Reconcile.applied in (λ a q. q)))
        (λ _ _.
          Keeps-bind
            (Keeps-modify
              (λ a. record a { status = record a.status { clobbered_preexisting = false } })
              (λ a q. q))
            (λ _ _. Keeps-pure _ tt))
  after_put-Good r (err e) = failure-Good _ _ _

  mark_clobbered :
      (a : DnsRecord)
      → SameSpec a
      → SameSpec (
          if a.status.domain_id == ""
          then record a { status = record a.status { clobbered_preexisting = true } }
          else a)
  mark_clobbered a q = elim (Bool-cases (a.status.domain_id == "")) [
    | inl e ↦ rw e q
    | inr e ↦ rw e q
  ]

  after_patch-Good :
      (r : DnsRecord) (a : Answer ApiError Domain) → Good Any (Reconcile.after_patch w r a)
  unfolding Reconcile.after_patch
  after_patch-Good r (ok d) =
      Keeps-bind
        (Keeps-modify
          (λ a.
            if a.status.domain_id == ""
            then record a { status = record a.status { clobbered_preexisting = true } }
            else a)
          mark_clobbered)
        (λ _ _.
          Keeps-bind (Keeps-modify (Reconcile.applied w d) (unfold Reconcile.applied in (λ a q. q)))
            (λ _ _. Keeps-pure _ tt))
  after_patch-Good r (err (foreign t)) = Keeps-pure _ tt
  after_patch-Good r (err (domain_not_found t)) = Keeps-return _
  after_patch-Good r (err (api_other t)) = failure-Good _ _ _

  module _ (endpoint token : String) where
    after_get-Good :
        (r : DnsRecord) (ids : List String) (a : Answer ApiError Domain)
        → MayWrite r.domain_name ids
        → Good Any (Reconcile.after_get w endpoint token r ids a)
    unfolding Reconcile.after_get
    after_get-Good r ids (err (foreign t)) m = Keeps-pure _ tt
    after_get-Good r ids (err (domain_not_found t)) m =
        Keeps-bind (Keeps-emit (Call.put_domain r.domain_name ids) m) (λ _ _. after_put-Good r _)
    after_get-Good r ids (err (api_other t)) m = failure-Good _ _ _
    after_get-Good r ids (ok d) m =
        Keeps-bind (Keeps-emit (Call.patch_domain r.domain_name ids) m)
          (λ _ _. after_patch-Good r _)

    register-Good :
        (ids : List String)
        → ((d : String) → d ≡ dr.domain_name → MayWrite d ids)
        → Good Any (Reconcile.register w endpoint token ids)
    unfolding Reconcile.register
    register-Good ids m = Keeps-bind Keeps-get (λ a q.
        Keeps-bind (Keeps-emit (Call.get_domain a.domain_name) q.0)
          (λ _ _. after_get-Good a ids _ (m a.domain_name q.0)))

    after_lookup-Good :
        (r : DnsRecord) (expected : List String) (a : Answer String (List String))
        → Good Any (Reconcile.after_lookup w endpoint token r expected a)
    unfolding Reconcile.after_lookup
    after_lookup-Good r expected (err t) = Keeps-pure _ tt
    after_lookup-Good r expected (ok found) =
        Keeps-bind
          (Keeps-modify
            (λ a. record a { status = record a.status { resolved_ips = sort_strings found } })
            (λ a q. q))
          (λ _ _. Keeps-pure _ tt)

    resolve-Good : (expected : List String) → Good Any (Reconcile.resolve w endpoint token expected)
    unfolding Reconcile.resolve
    resolve-Good expected = Keeps-bind Keeps-get (λ a q.
        Keeps-bind (Keeps-emit (Call.lookup_domain a.domain_name) q.0)
          (λ _ _. after_lookup-Good a expected _))

  skip_status-Good : (last : Option ℕ) → Good Any (Reconcile.skip_status w last)
  unfolding Reconcile.skip_status
  skip_status-Good last =
      Keeps-bind
        (Keeps-modify (λ r. record r { status = record r.status { last_sync_time = last } })
          (λ a q. q))
        (λ _ _. Keeps-pure none tt)

  write_status-Good : Good Any (Reconcile.write_status w)
  unfolding Reconcile.write_status
  write_status-Good =
      Keeps-bind
        (Keeps-modify (λ r. record r { status = record r.status { last_sync_time = some w.now } })
          (λ a q. q))
        (λ _ _.
          Keeps-bind Keeps-get
            (λ c q. Keeps-bind (Keeps-emit (Call.update_status c) tt) (λ _ _. Keeps-pure _ tt)))

  commit_status-Good :
      (before : Status) (last : Option ℕ) → Good Any (Reconcile.commit_status w before last)
  unfolding Reconcile.commit_status
  commit_status-Good before last = Keeps-bind Keeps-get (λ a q.
      Keeps-if (Reconcile.is_current w before last a) _ _ (λ _. skip_status-Good last)
        (λ _. write_status-Good))

  conclude-SameSpec :
      (reg : Reconcile.Registration) (res : Reconcile.Resolution) (a : DnsRecord)
      → SameSpec a
      → SameSpec (Reconcile.conclude w reg res a)
  unfolding Reconcile.conclude Reconcile.set_condition_of
  conclude-SameSpec reg res a q = elim (Bool-cases res.status) [ inl e ↦ rw e q | inr e ↦ rw e q ]

  committed-Good :
      (res : Reconcile.Resolution) (e : Option KubeError) → Good Any (Reconcile.committed w res e)
  unfolding Reconcile.committed
  committed-Good res none = Keeps-return _
  committed-Good res (some e) = Keeps-return _

  module _ (d : dr.deleting ≡ false)
      (held : w.contains_finalizer dr.finalizers Reconcile.finalizer_name ≡ true) (taas : Taas)
      (token : String) (named : w.get_taas dr.namespace dr.taas_ref ≡ ok taas) where
    drive-Good :
        (before : Status) (targets : List String)
        → targets ≡ dr.target_bastion_ids
        → is_empty (select_bastions taas.bastions targets).missing ≡ true
        → Good Any (Reconcile.drive w before taas token (select_bastions taas.bastions targets))
    unfolding Reconcile.drive
    drive-Good before targets same complete =
        let chosen = select_bastions taas.bastions targets in
        Keeps-bind
          (Keeps-modify (λ r. record r { status = record r.status { expected_ips = chosen.ips } })
            (λ a q. q))
          (λ _ _.
            Keeps-bind
              (register-Good taas.api_endpoint token chosen.ids (λ x e. record {
                alive = d;
                held = held;
                domain_same = e;
                taas = taas;
                named = named;
                chosen = rw same refl;
                complete = rw (← same) complete;
              }))
              (λ reg _. Keeps-bind (resolve-Good taas.api_endpoint token chosen.ips) (λ res _.
                Keeps-bind Keeps-get (λ last _.
                  Keeps-bind
                    (Keeps-modify (Reconcile.conclude w reg res) (conclude-SameSpec reg res))
                    (λ _ _.
                      Keeps-bind (commit_status-Good before _) (λ r _. committed-Good res r))))))

    with_bastions-Good :
        (before : Status) (a : DnsRecord) (o : Option ℕ)
        → SameSpec a
        → Good Any (Reconcile.with_bastions w before taas token a o)
    unfolding Reconcile.with_bastions
    with_bastions-Good before a none q = failure-Good _ _ _
    with_bastions-Good before a (some t) q =
        let missing = (select_bastions taas.bastions a.target_bastion_ids).missing in
        Keeps-if (not (is_empty missing)) _ _ (λ _. failure-Good _ _ _)
          (λ e. drive-Good before a.target_bastion_ids q.1 (not-false (is_empty missing) e))

    sync-Good : (before : Status) → Good Any (Reconcile.sync w before taas token)
    unfolding Reconcile.sync
    sync-Good before = Keeps-bind Keeps-get (λ a q. with_bastions-Good before a _ q)

  add_own_finalizer-Right :
      dr.deleting ≡ false
      → w.contains_finalizer dr.finalizers Reconcile.finalizer_name ≡ false
      → Right SameSpec (Reconcile.add_own_finalizer w)
  unfolding Reconcile.add_own_finalizer
  add_own_finalizer-Right d c =
      Ends-modify
        (λ r. record r { finalizers = w.add_finalizer r.finalizers Reconcile.finalizer_name })
        (λ a q. (q.0, q.1, q.2, q.3, ap (λ fs. w.add_finalizer fs Reconcile.finalizer_name) q.4))
        (update-Right (w.add_finalizer dr.finalizers Reconcile.finalizer_name) again
          (λ r q. inl (q, d, c)))

  alive_pass : Reconcile.Step (Unit {0})
  alive_pass = do
    (taas, token) ← Reconcile.resolve_aquaduct_taas w
    Reconcile.sync w dr.status taas token

  alive_pass-Good :
      dr.deleting ≡ false
      → w.contains_finalizer dr.finalizers Reconcile.finalizer_name ≡ true
      → Good Any alive_pass
  unfolding alive_pass
  alive_pass-Good d held =
      Keeps-bind resolve_taas-Good (λ r n. sync-Good d held r.0 r.1 n.named dr.status)

  FromStart-if :
      {A : Type 0} (b : Bool) (m n : Reconcile.Step A)
      → (b ≡ true → FromStart m)
      → (b ≡ false → FromStart n)
      → FromStart (if b then m else n)
  FromStart-if true m n km kn = km refl
  FromStart-if false m n km kn = kn refl

  abbrev unclaimed_pass : Reconcile.Step (Unit {0})
  unclaimed_pass =
      if not (w.contains_finalizer dr.finalizers Reconcile.finalizer_name)
      then Reconcile.add_own_finalizer w
      else alive_pass

  abbrev client_pass : Reconcile.Step (Unit {0})
  client_pass = if dr.deleting then Reconcile.handle_deletion w else unclaimed_pass

  abbrev no_client : Reconcile.Step (Unit {0})
  no_client =
      Reconcile.failure w "Registered" "ConfigError"
        "DNSRecordReconciler has no APIClient configured; check operator deployment"

  pass-FromStart : FromStart (Reconcile.pass w)
  unfolding Reconcile.pass ◌>>=◌ alive_pass
  pass-FromStart =
      let contained = w.contains_finalizer dr.finalizers Reconcile.finalizer_name in
      FromStart-if (not w.has_client) no_client client_pass
        (λ _. of_Good {V = Any} no_client (failure-Good _ _ _))
        (λ _.
          FromStart-if dr.deleting (Reconcile.handle_deletion w) unclaimed_pass
            handle_deletion-FromStart
            (λ d.
              FromStart-if (not contained) (Reconcile.add_own_finalizer w) alive_pass
                (λ f.
                  of_lem (Reconcile.add_own_finalizer w)
                    (add_own_finalizer-Right d (not-true contained f)))
                (λ f. of_Good alive_pass (alive_pass-Good d (not-false contained f)))))

-- Every call that a pass makes is justified by the record as it was read. It writes the domain only
-- for a record that is alive and already carries the finalizer, with exactly the bastions selected
-- from the AquaductTaaS that the record names. It asks to delete the domain only for a record that is
-- being deleted and carries the finalizer. It updates the object only with the finalizers that were
-- read and the operator's added, where the record is alive and lacked it, or with the operator's
-- removed, where the record is being deleted and the domain API, at the endpoint of that AquaductTaaS
-- with the token of its Secret, deleted the domain or called it someone else's. It reads and looks up
-- no domain but the record's. Nothing is said of what it writes to the status.
pub reconcile_calls :
    (w : World) (dr zero_record : DnsRecord)
    → All (Justified w dr) (Reconcile.reconcile w (ok dr) zero_record).1.calls
unfolding Reconcile.reconcile Reconcile.ending
reconcile_calls w dr zero_record =
    ending-calls (Reconcile.pass w (record { object = dr; calls = [] })) (pass-FromStart w dr)
  where
    ending-calls :
        (r : Flow (Unit {0}) × State DnsRecord Call)
        → All (Justified w dr) r.1.calls
        → All (Justified w dr) (Reconcile.ending w r).1.calls
    ending-calls (next a, s) h = h
    ending-calls (stop r, s) h = h
