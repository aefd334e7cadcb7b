-- ===== src/Reflector/ClusterDns.antt =====
-- internal/controller/weftlocaldnsreflector/coredns.go: the server blocks of a reflector and its key of
-- the CoreDNS custom ConfigMap. `net.ParseIP(..).String()` and %q are parameters, as is the API server:
-- the answer to the read and the errors of a create and of an update.
pub mod Publish
pub mod Zones
use weft_operator.Prelude.{
  String, Option, none, some, ◌≡◌, ◌≢◌, refl, sym, ap, ◌∙◌, Bool, true, false, not, ◌&&◌, ◌||◌, inl,
  inr, List, [], ◌∷◌, map, is_empty, ◌==◌, eq_iff, arith, Bool-cases, Option-cases, text_cases,
  if◌then◌else◌,
}
use weft_operator.Prelude.Text.{◌<>◌, to_lower}
use weft_operator.Prelude.Sort.{sort_strings}
use weft_operator.Prelude.Assoc.{Assoc, lookup, put, remove, lookup-put, lookup-remove}
use weft_operator.Kube.{Answer, ok, err, KubeError, not_found, already_exists, other}
use weft_operator.Reflector.{Parsers}

-- slices.Compact: of equal neighbours the first.
unfoldable pub compact : List String → List String
compact [] = []
compact (x ∷ []) = x ∷ []
compact (x ∷ y ∷ ys) = let rest = compact (y ∷ ys) in if x == y then rest else x ∷ rest

unfoldable pub sorted_lower : List String → List String
sorted_lower xs = compact (sort_strings (map to_lower xs))

pub data RenderError : Type 0 where
  no_hostnames : RenderError
  bad_ip bad_hostname : String → RenderError

unfoldable pub server_block : String → String → String
server_block ip h =
    h <> ":53 {\n" <> "    errors\n" <> "    cache 30\n" <> "    hosts {\n" <> "        " <> ip
    <> " " <> h <> "\n" <> "        ttl 30\n" <> "        fallthrough\n" <> "    }\n"
    <> "    forward . /etc/resolv.conf\n" <> "}\n"

abbrev pub after_text : String → Answer RenderError String → Answer RenderError String
after_text s (ok t) = ok (s <> t)
after_text s (err e) = err e

module _ (parsers : Parsers) (parse_ip : String → Option String) (quote : String → String) where
  unfoldable pub server_blocks : String → List String → Answer RenderError String
  server_blocks ip [] = ok ""
  server_blocks ip (h ∷ hs) =
      let rest = server_blocks ip hs in
      if not (parsers.is_dns_name h) || parsers.is_ip h
      then err (bad_hostname h)
      else after_text (server_block ip h) rest

  unfoldable pub with_ip : String → List String → String → Answer RenderError String
  with_ip reflector hostnames ip =
      if is_empty hostnames
      then err no_hostnames
      else after_text
          ("# Managed by weft-operator WeftLocalDNSReflector "
            <> quote reflector
            <> ". Do not edit.\n")
          (server_blocks ip (sorted_lower hostnames))

  unfoldable pub render_core_dns : String → String → List String → Answer RenderError String
  render_core_dns reflector service_ip hostnames = elim (parse_ip service_ip) [
    | none ↦ err (bad_ip service_ip)
    | some ip ↦ with_ip reflector hostnames ip
  ]

unfoldable pub core_dns_key : String → String
core_dns_key name = "weft-local-dns-reflector-" <> name <> ".server"

-- What `syncCoreDNS` returns, and the data that it sent and the API server took, if any.
pub record Outcome : Type 0 where
  pub present : Bool
  pub error : Option KubeError
  pub written : Option (Assoc String)

-- The answers of the API server: to the read, and to a create and an update with these data.
pub record Answers : Type 0 where
  pub read : Answer KubeError (Assoc String)
  pub on_create : Assoc String → Option KubeError
  pub on_update : Assoc String → Option KubeError

-- The outcome of the create, and of the update, from its error.
abbrev pub after_create : Assoc String → Option KubeError → Outcome
after_create sent none = record { present = true; error = none; written = some sent }
after_create sent (some e) = record { present = false; error = some e; written = none }

abbrev pub after_update : String → Bool → Assoc String → Option KubeError → Outcome
after_update content present sent none = record {
  present = not (content == "");
  error = none;
  written = some sent;
}
after_update content present sent (some e) = record {
  present = present;
  error = some e;
  written = none;
}

module _ (a : Answers) (key content : String) where
  unfoldable pub created : Outcome
  created = let sent = (key, content) ∷ [] in after_create sent (a.on_create sent)

  unfoldable pub updated : Bool → Assoc String → Outcome
  updated present sent = after_update content present sent (a.on_update sent)

  abbrev pub unchanged : Bool → Outcome
  unchanged present = record { present = present; error = none; written = none }

  unfoldable pub with_current : Assoc String → Option String → Outcome
  with_current entries none =
      if content == "" then unchanged false else updated false (put key content entries)
  with_current entries (some current) =
      if content == ""
      then updated true (remove key entries)
      else if current == content
      then unchanged true
      else updated true (put key content entries)

  unfoldable pub after_read : Answer KubeError (Assoc String) → Outcome
  after_read (ok entries) = with_current entries (lookup key entries)
  after_read (err not_found) = if content == "" then unchanged false else created
  after_read (err already_exists) = record {
    present = false;
    error = some already_exists;
    written = none;
  }
  after_read (err (other m)) = record { present = false; error = some (other m); written = none }

  unfoldable pub sync_core_dns : Outcome
  sync_core_dns = after_read a.read
