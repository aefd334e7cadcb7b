-- ===== src/Gateway/Dns.antt =====
-- The DNSRecords of a gateway: reconcileDNSRecords, cleanupDNSRecords, findSingletonTaaS and the
-- classification of host names in internal/controller/weftgateway/reconciler.go.
pub mod Classify
pub mod Pinned
pub mod Writes
pub mod Stamped
use weft_operator.Prelude.{
  ℕ, ◌%◌, String, Option, none, some, Bool, true, false, not, ◌&&◌, ◌||◌, List, [], ◌∷◌, ◌++◌, map,
  keep, contains, get_elem?, get_or, length, is_empty, ◌==◌, if◌then◌else◌,
}
use weft_operator.Prelude.Text.{◌<>◌, first_bytes}
use weft_operator.Prelude.Sort.{sort_strings}
use weft_operator.Prelude.Assoc.{Assoc, put}
use weft_operator.Kube.{Answer, ok, err, KubeError}
use weft_operator.Kube.Store.{Write, write_name, or_else, write_all, delete_unless, unless_gone}
use weft_operator.DnsRecord.{Bastion, Taas}
use weft_operator.DnsRecord.Bastions.{is_usable}
use weft_operator.Gateway.{Listener, Gateway, StampedRecord, Library, Api}

-- hostnameSpec
pub record HostnameSpec : Type 0 where
  pub hostname : String
  pub l4 : Bool

unfoldable pub is_l4_protocol : String → Bool
is_l4_protocol p = p == "TCP" || p == "UDP"

-- One round of the loop for a host name: its entry, appended if it is new, is tagged if the listener is
-- L4. `indexByHost` holds the position of the entry.
unfoldable pub tag_hostname : String → Bool → List HostnameSpec → List HostnameSpec
tag_hostname h l4 [] = record { hostname = h; l4 = l4 } ∷ []
tag_hostname h l4 (s ∷ ss) =
    let rest = tag_hostname h l4 ss in
    if s.hostname == h then record s { l4 = s.l4 || l4 } ∷ ss else s ∷ rest

unfoldable pub add_hostname : Option String → Bool → List HostnameSpec → List HostnameSpec
add_hostname none l4 out = out
add_hostname (some h) l4 out = if h == "" then out else tag_hostname h l4 out

unfoldable pub classify_from : List HostnameSpec → List Listener → List HostnameSpec
classify_from out [] = out
classify_from out (l ∷ ls) =
    classify_from (add_hostname l.hostname (is_l4_protocol l.protocol) out) ls

unfoldable pub classify_listener_hostnames : Gateway → List HostnameSpec
classify_listener_hostnames gw = classify_from [] gw.listeners

-- eligibleBastionIDs: the bastions pass the test of `selectBastions`.
unfoldable pub eligible_bastion_ids : List Bastion → List String
eligible_bastion_ids bastions = sort_strings (map (λ (b : Bastion). b.id) (keep is_usable bastions))

-- The test of findSingletonTaaS.
unfoldable pub singleton : List Taas → Option Taas
singleton [] = none
singleton (t ∷ []) = some t
singleton (t ∷ u ∷ ts) = none

abbrev pub label_gateway_namespace : String
label_gateway_namespace = "weft.aquaduct.dev/gateway-namespace"

abbrev pub label_gateway_name : String
label_gateway_name = "weft.aquaduct.dev/gateway-name"

abbrev pub label_created_by : String
label_created_by = "created-by"

abbrev pub created_by_value : String
created_by_value = "weft-operator"

module _ (lib : Library) (gw : Gateway) where
  -- What is hashed for a host name.
  abbrev pub host_key : String → String
  host_key hostname = gw.namespace <> "/" <> gw.name <> "/" <> hostname

  abbrev pub pick_eligible : List String → String → String
  pick_eligible [] hostname = ""
  pick_eligible (e ∷ es) hostname =
      get_or (get_elem? (e ∷ es) (lib.sha256_head (host_key hostname) % length (e ∷ es))) ""

  unfoldable pub pick_l4_bastion : List Bastion → String → String
  pick_l4_bastion bastions hostname = pick_eligible (eligible_bastion_ids bastions) hostname

  unfoldable pub dns_record_name : String → String
  dns_record_name hostname =
      "gw-" <> gw.name <> "-" <> first_bytes 10 (lib.sha256_hex (host_key hostname))

  -- The target bastions of a host name: `none` where no record is stamped.
  unfoldable pub target_ids : Taas → HostnameSpec → Option (List String)
  target_ids taas h =
      let id = pick_l4_bastion taas.bastions h.hostname in
      if not h.l4 then some [] else if id == "" then none else some (id ∷ [])

  -- The function that `CreateOrUpdate` applies.
  unfoldable pub stamp :
      Taas → String → List String → StampedRecord → Answer KubeError StampedRecord
  stamp taas hostname ids dr = ok (record dr {
    domain_name = hostname;
    taas_ref = taas.name;
    target_bastion_ids = ids;
    labels =
        put label_created_by created_by_value
          (put label_gateway_name gw.name (put label_gateway_namespace gw.namespace dr.labels));
  })

  abbrev pub record_write : Taas → HostnameSpec → Option (List String) → List (Write StampedRecord)
  record_write taas h none = []
  record_write taas h (some ids) =
      record { name = dns_record_name h.hostname; mutate = stamp taas h.hostname ids } ∷ []

  unfoldable pub record_writes : Taas → List HostnameSpec → List (Write StampedRecord)
  record_writes taas [] = []
  record_writes taas (h ∷ hs) = record_write taas h (target_ids taas h) ++ record_writes taas hs

  module _ {S : Type 0} (api : Api S) where
    -- The records that the gateway stamped before, less those of the expected names.
    unfoldable pub prune_records : Taas → List String → S → Option KubeError × S
    prune_records taas expected s = elim (api.list_records s taas.namespace gw.namespace gw.name) [
      | err e ↦ (some e, s)
      | ok owned ↦
          delete_unless api.records unless_gone (λ (dr : StampedRecord). contains expected dr.name)
            owned s
    ]

    unfoldable pub stamp_records : Taas → S → Option KubeError × S
    stamp_records taas s =
        let ws = record_writes taas (classify_listener_hostnames gw) in
        or_else (write_all api.records taas.namespace ws s) (prune_records taas (map write_name ws))

    unfoldable pub with_singleton :
        (Taas → S → Option KubeError × S) → Answer KubeError (List Taas) → S → Option KubeError × S
    with_singleton f (err e) s = (some e, s)
    with_singleton f (ok ts) s = elim (singleton ts) [ none ↦ (none, s) | some t ↦ f t s ]

    unfoldable pub reconcile_dns_records : S → Option KubeError × S
    reconcile_dns_records s = with_singleton stamp_records (api.list_taas s) s

    unfoldable pub delete_owned : Taas → S → Option KubeError × S
    delete_owned taas s = prune_records taas [] s

    unfoldable pub cleanup_dns_records : S → Option KubeError × S
    cleanup_dns_records s = with_singleton delete_owned (api.list_taas s) s
