-- ===== src/Tests/DnsRecordRuns.antt =====
-- Runs of internal/controller/dnsrecord.
use weft_operator.Prelude.{
  String, none, some, ◌≡◌, refl, true, false, ◌↔◌, List, [], ◌∷◌, ◌==◌, eq_iff, arith, contains,
  All, keep, not, if◌then◌else◌, Bool-cases, inl, inr,
}
use weft_operator.Prelude.Sort.{sort_strings}
use weft_operator.Kube.{ok, err, Condition, find_condition, next}
use weft_operator.DnsRecord.{Domain, Bastion, Taas, Status, DnsRecord, World, domain_not_found}
use weft_operator.DnsRecord.Bastions.{select_bastions}
use weft_operator.DnsRecord.Bastions.Selected.{SelectsAll, select_bastions-SelectsAll}
use weft_operator.DnsRecord.Reconcile
use weft_operator.DnsRecord.Safety.{Justified, reconcile_calls}
use weft_operator.DnsRecord.Readiness.{SetsConditions, is_true, resolve-status, conclude-conditions}

abbrev bastions : List Bastion
bastions =
    record { id = "b1"; ip = "203.0.113.7"; suspended = false }
    ∷ record { id = "b2"; ip = "203.0.113.5"; suspended = false }
    ∷ record { id = "b3"; ip = "203.0.113.6"; suspended = true }
    ∷ []

abbrev taas : Taas
taas = record {
  namespace = "edge";
  name = "account";
  api_endpoint = "https://api.aquaduct.dev";
  access_token_secret_ref = some (record { name = "token"; key = "access" });
  last_sync_time = some 1000;
  bastions = bastions;
}

abbrev new_status : Status
new_status = record {
  observed_generation = 0;
  conditions = [];
  domain_id = "";
  expected_ips = [];
  resolved_ips = [];
  applied_bastion_ids = [];
  applied_ips = [];
  clobbered_preexisting = false;
  last_sync_time = none;
}

abbrev pub site : DnsRecord
site = record {
  namespace = "edge";
  name = "site";
  generation = 2;
  deleting = false;
  finalizers = Reconcile.finalizer_name ∷ [];
  domain_name = "shop.example";
  taas_ref = "account";
  target_bastion_ids = [];
  status = new_status;
}

abbrev gone : DnsRecord
gone = record site { deleting = true }

-- A condition of the type is replaced, else added at the end.
abbrev upsert : Condition → List Condition → List Condition
upsert c [] = c ∷ []
upsert c (x ∷ xs) = let rest = upsert c xs in if x.type == c.type then c ∷ xs else x ∷ rest

abbrev domain : Domain
domain = record { id = "d9"; name = "shop.example"; bastion_ids = "b1" ∷ "b2" ∷ []; ips = [] }

-- The domain is not registered yet, and its addresses are already right.
abbrev pub world : World
world = record {
  has_client = true;
  get_taas = λ ns name. ok taas;
  get_secret = λ ns name. ok (("access", "t0ken") ∷ []);
  on_update = λ r. none;
  on_update_status = λ r. none;
  on_get = λ endpoint token d. err (domain_not_found "404");
  on_put = λ endpoint token d ids. ok domain;
  on_patch = λ endpoint token d ids. ok domain;
  on_delete = λ endpoint token d. none;
  on_lookup = λ endpoint token d. ok ("203.0.113.7" ∷ "203.0.113.5" ∷ []);
  now = 1500;
  contains_finalizer = contains;
  add_finalizer = λ fs f. f ∷ fs;
  remove_finalizer = λ fs f. keep (λ g. not (g == f)) fs;
  set_condition = upsert;
  deep_equal = λ s t. false;
  sprintf = λ format args. format;
  sprint_list = λ xs. "";
  itoa = λ n. "";
}

find_condition-upsert :
    (c : Condition) (cs : List Condition) (t : String)
    → find_condition t (upsert c cs) ≡ (if c.type == t then some c else find_condition t cs)
unfolding find_condition
find_condition-upsert c [] t = refl
find_condition-upsert c (x ∷ xs) t = elim (Bool-cases (x.type == c.type)) [
  | inl e ↦
      let same = eq_iff x.type c.type in
      rw e (ground (arith, same, eq_iff c.type t, eq_iff x.type t))
  | inr e ↦ rw e (
      ground (
        arith,
        eq_iff x.type c.type,
        eq_iff c.type t,
        eq_iff x.type t,
        find_condition-upsert c xs t,
      ))
]

world-SetsConditions : SetsConditions world
world-SetsConditions = record { found = find_condition-upsert }

reconcile_calls_example :
    All (Justified world site) (Reconcile.reconcile world (ok site) site).1.calls
reconcile_calls_example = reconcile_calls world site site

select_bastions-SelectsAll_example : SelectsAll bastions (select_bastions bastions [])
select_bastions-SelectsAll_example = select_bastions-SelectsAll bastions

abbrev expected : List String
expected = "203.0.113.5" ∷ "203.0.113.7" ∷ []

resolve-status_example :
    (res : Reconcile.Resolution) × ((Reconcile.resolve world "https://api.aquaduct.dev" "t0ken"
        expected
        (record { object = site; calls = [] })).0
      ≡ next res)
    × ((res.status ≡ true) ↔ (
        (found : List String) × (world.on_lookup "https://api.aquaduct.dev" "t0ken" "shop.example"
          ≡ ok found)
        × (sort_strings found ≡ expected)))
resolve-status_example = resolve-status world "https://api.aquaduct.dev" "t0ken" expected site []

abbrev refused : Reconcile.Registration
refused = record { status = false; reason = "ForeignOwned"; message = ""; patch_foreign = true }

abbrev correct : Reconcile.Resolution
correct = record { status = true; reason = "Resolved"; message = ""; lookup_failed = false }

conclude-conditions_example :
    (is_true "Ready" (Reconcile.conclude world refused correct site).status.conditions ≡ true)
    × (is_true "Resolved" (Reconcile.conclude world refused correct site).status.conditions ≡ true)
    × (is_true "Registered" (Reconcile.conclude world refused correct site).status.conditions
        ≡ false)
conclude-conditions_example = conclude-conditions world world-SetsConditions refused correct site
