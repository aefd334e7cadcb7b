-- ===== src/DnsRecord/Bastions.antt =====
-- `selectBastions` of internal/controller/dnsrecord/reconciler.go
pub mod Selected
use weft_operator.Prelude.{
  String, Option, none, some, ◌≡◌, refl, Bool, true, false, not, ◌&&◌, ◌||◌, List, [], ◌∷◌, map,
  keep, is_empty, ◌==◌, if◌then◌else◌,
}
use weft_operator.Prelude.Sort.{sort_strings}
use weft_operator.DnsRecord.{Bastion}

pub record Selection : Type 0 where
  pub ips : List String
  pub ids : List String
  pub missing : List String

-- The map `byID`: a later bastion replaces an earlier one of its ID.
unfoldable pub by_id : List Bastion → String → Option Bastion
by_id [] id = none
by_id (b ∷ bs) id = elim (by_id bs id) [
  | some c ↦ some c
  | none ↦ if b.id == id then some b else none
]

unfoldable pub is_usable : Bastion → Bool
is_usable b = not (b.suspended || b.ip == "")

-- The loop over the wanted IDs.
unfoldable pub pick : List Bastion → List String → Selection
unfolding by_id
pick bastions [] = record { ips = []; ids = []; missing = [] }
pick bastions (want ∷ wants) =
    let rest = pick bastions wants in
    let absent : Selection = record rest { missing = want ∷ rest.missing } in
    elim (by_id bastions want) [
      | none ↦ absent
      | some b ↦
          if b.ip == ""
          then absent
          else record rest { ips = b.ip ∷ rest.ips; ids = b.id ∷ rest.ids }
    ]

unfoldable pub select_bastions : List Bastion → List String → Selection
unfolding is_usable pick
select_bastions bastions targets =
    let usable = keep is_usable bastions in
    let chosen : Selection =
      if is_empty targets
      then record {
        ips = map (λ (b : Bastion). b.ip) usable;
        ids = map (λ (b : Bastion). b.id) usable;
        missing = [];
      }
      else pick bastions targets in
    record {
      ips = sort_strings chosen.ips;
      ids = sort_strings chosen.ids;
      missing = sort_strings chosen.missing;
    }
