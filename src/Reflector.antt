-- ===== src/Reflector.antt =====
-- internal/controller/weftlocaldnsreflector/claims.go: which host names each reflector serves.
-- A time is `none` for the zero time. `url.Parse`, the pattern of host names and `net.ParseIP` are
-- parameters.
pub mod Owner
pub mod Disjoint
pub mod ClusterDns
pub mod UntrustedPods
pub mod Routes
use weft_operator.Prelude.{
  ℕ, ◌<◌, String, Option, none, some, Bool, true, false, not, ◌&&◌, ◌||◌, List, [], ◌∷◌, ◌++◌, map,
  keep, contains, is_empty, ◌==◌, ltb, eqb, if◌then◌else◌,
}
use weft_operator.Prelude.Text.{◌<>◌, to_lower, text_lt}
use weft_operator.Prelude.Sort.{sort_by, sort_strings}

-- A WeftLocalDNSReflector: its metadata and the fields of its spec that name hosts.
pub record Reflector : Type 0 where
  pub name : String
  pub creation : Option ℕ
  pub deleting : Bool
  pub all_hostnames : Bool
  pub hostnames : List String

-- The parts of a parsed URL that are read: `u.Scheme` and `u.Hostname()`.
pub record Url : Type 0 where
  pub scheme : String
  pub hostname : String

-- `url.Parse`, `len(h) <= 253 && hostnameRE.MatchString(h)`, and `net.ParseIP(h) != nil`.
pub record Parsers : Type 0 where
  pub parse_url : String → Option Url
  pub is_dns_name : String → Bool
  pub is_ip : String → Bool

pub record Tunnel : Type 0 where
  pub namespace : String
  pub name : String
  pub src_url : String
  pub dst_url : String

time_before : Option ℕ → Option ℕ → Bool
time_before none b = false
time_before (some s) none = true
time_before (some s) (some t) = ltb s t

time_equal : Option ℕ → Option ℕ → Bool
time_equal none none = true
time_equal none (some t) = false
time_equal (some s) none = false
time_equal (some s) (some t) = eqb s t

unfoldable pub older : Reflector → Reflector → Bool
unfolding time_before time_equal
older a b =
    if not (time_equal a.creation b.creation)
    then time_before a.creation b.creation
    else text_lt a.name b.name

-- The first occurrences, in order: the loop of `sortedUnique` with its `seen`.
unfoldable pub unique : List String → List String → List String
unique seen [] = []
unique seen (s ∷ ss) = elim (contains seen s) [
  | true ↦ unique seen ss
  | false ↦ s ∷ unique (s ∷ seen) ss
]

unfoldable pub sorted_unique : List String → List String
sorted_unique ss = sort_strings (unique [] (map to_lower ss))

-- The reflectors that count, oldest first.
unfoldable pub live : Reflector → List Reflector → List Reflector
live self all =
    sort_by older
      (keep (λ (r : Reflector). not r.deleting && not (r.name == self.name)) all ++ self ∷ [])

-- Whether a reflector names the host explicitly.
unfoldable pub names : String → Reflector → Bool
names h r = not r.all_hostnames && contains (map to_lower r.hostnames) h

-- The first reflector that passes the test.
unfoldable pub first : (Reflector → Bool) → List Reflector → Option Reflector
first p [] = none
first p (r ∷ rs) = if p r then some r else first p rs

-- The entry of `explicitOwner`: the name of the first reflector that names the host.
unfoldable pub explicit_owner : List Reflector → String → Option String
explicit_owner rs h = elim (first (names h) rs) [ none ↦ none | some r ↦ some r.name ]

-- `firstAll`, the empty text if there is none.
unfoldable pub first_all : List Reflector → String
first_all rs = elim (first (λ (r : Reflector). r.all_hostnames) rs) [ none ↦ "" | some r ↦ r.name ]

module _ (parsers : Parsers) where
  unfoldable pub tunnel_host : Tunnel → Option String
  tunnel_host t = elim (parsers.parse_url t.dst_url) [
    | none ↦ none
    | some u ↦
        let h = to_lower u.hostname in
        if not (u.scheme == "http" || u.scheme == "https")
        then none
        else if not (parsers.is_dns_name h) || parsers.is_ip h
        then none
        else some h
  ]

  unfoldable pub tunnel_hosts : List Tunnel → List String
  tunnel_hosts [] = []
  tunnel_hosts (t ∷ ts) = elim (tunnel_host t) [
    | none ↦ tunnel_hosts ts
    | some h ↦ h ∷ tunnel_hosts ts
  ]

  unfoldable pub tunnel_hostnames : List Tunnel → List String
  tunnel_hostnames ts = sorted_unique (tunnel_hosts ts)

pub record Claims : Type 0 where
  pub claimed : List String
  pub conflicting : List String

-- The hosts that pass the test are claimed, the others are conflicting.
abbrev pub divide : (String → Bool) → List String → Claims
divide p hs = record { claimed = keep p hs; conflicting = keep (λ h. not (p h)) hs }

unfoldable pub owned_by : String → Option String → Bool
owned_by name none = name == ""
owned_by name (some o) = o == name

unfoldable pub is_none : Option String → Bool
is_none none = true
is_none (some o) = false

unfoldable pub resolve_claims : Parsers → Reflector → List Reflector → List Tunnel → Claims
resolve_claims parsers self all tunnels =
    let rs = live self all in
    if not self.all_hostnames
    then divide (λ h. owned_by self.name (explicit_owner rs h)) (sorted_unique self.hostnames)
    else divide (λ h. is_none (explicit_owner rs h) && first_all rs == self.name)
        (tunnel_hostnames parsers tunnels)

unfoldable pub cert_names : Reflector → List String → List String
cert_names r claimed =
    if is_empty claimed then (r.name <> ".weft-local-dns-reflector.invalid") ∷ [] else claimed
