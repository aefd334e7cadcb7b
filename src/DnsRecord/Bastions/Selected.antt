-- ===== src/DnsRecord/Bastions/Selected.antt =====
-- The selection without target IDs: `selectBastions` of internal/controller/dnsrecord/reconciler.go.
use weft_operator.Prelude.{
  In-map, map-In, String, ◌≡◌, ◌≢◌, refl, true, false, List, [], eq_iff, arith, In, In-keep,
  keep-In,
}
use weft_operator.Prelude.Text.{text_lt}
use weft_operator.Prelude.Sort.{
  sort_by, sort_by-In, In-sort_by, sort_by-IsSorted, IsSorted, text_lt-IsOrder,
}
use weft_operator.DnsRecord.{Bastion}
use weft_operator.DnsRecord.Bastions.{Selection, is_usable, select_bastions}

abbrev pub IsUsable : Bastion → Type 0
IsUsable b = (b.suspended ≡ false) × (b.ip ≢ "")

is_usable-IsUsable : (b : Bastion) → is_usable b ≡ true → IsUsable b
unfolding is_usable
is_usable-IsUsable b h = (ground arith, λ e. ground (arith, eq_iff b.ip ""))

IsUsable-is_usable : (b : Bastion) → IsUsable b → is_usable b ≡ true
unfolding is_usable
IsUsable-is_usable b (s, n) = ground (arith, eq_iff b.ip "")

-- What the selection is where the record names no bastions.
pub record SelectsAll (bastions : List Bastion) (chosen : Selection) : Type 0 where
  pub sorted : IsSorted text_lt chosen.ips
  pub complete : chosen.missing ≡ []
  pub sound :
      (ip : String) → In ip chosen.ips → (b : Bastion) × In b bastions × IsUsable b × (b.ip ≡ ip)
  pub sound_ids :
      (id : String) → In id chosen.ids → (b : Bastion) × In b bastions × IsUsable b × (b.id ≡ id)
  pub full : (b : Bastion) → In b bastions → IsUsable b → In b.ip chosen.ips × In b.id chosen.ids

-- Without target IDs the addresses of the selection are sorted, its addresses and its IDs are those of
-- exactly the bastions that are not suspended and have an address, and nothing is missing.
pub select_bastions-SelectsAll :
    (bastions : List Bastion) → SelectsAll bastions (select_bastions bastions [])
unfolding select_bastions
select_bastions-SelectsAll bastions = record {
  sorted = sort_by-IsSorted text_lt-IsOrder _;
  complete = unfold sort_by in refl;
  sound = λ ip m.
      let (b, k, e) = In-map (λ (b : Bastion). b.ip) ip _ (sort_by-In text_lt ip _ m) in
      let (i, u) = In-keep is_usable b bastions k in (b, i, is_usable-IsUsable b u, e);
  sound_ids = λ id m.
      let (b, k, e) = In-map (λ (b : Bastion). b.id) id _ (sort_by-In text_lt id _ m) in
      let (i, u) = In-keep is_usable b bastions k in (b, i, is_usable-IsUsable b u, e);
  full = λ b i u.
      let k = keep-In is_usable b bastions i (IsUsable-is_usable b u) in
      (
        In-sort_by text_lt b.ip _ (map-In (λ (b : Bastion). b.ip) b _ k),
        In-sort_by text_lt b.id _ (map-In (λ (b : Bastion). b.id) b _ k),
      );
}
