-- ===== src/Tests/HostsFileRuns.antt =====
-- Runs of internal/nodeagent/hostsfile.go.
use weft_operator.Prelude.{String, ◌≡◌, refl, List, [], ◌∷◌}
use text.Mathlib.TextLemmas.{cons≢nil}
use weft_operator.HostsFile.{
  lines_of, set_lines, with_managed_block, with_hosts_block, with_ca_block,
}
use weft_operator.HostsFile.Block.{
  set_lines-absent, set_lines-replace, set_lines-open, set_lines-set_lines,
}
use weft_operator.HostsFile.Content.{with_managed_block-with_managed_block}

abbrev hosts : String
hosts = "127.0.0.1 localhost\n"

abbrev with_block : String
with_block =
    "127.0.0.1 localhost\n# BEGIN weft-local-dns-reflector r (managed by weft-operator; do not edit)\n10.0.0.9 a.io b.io\n# END weft-local-dns-reflector r\n"

publish : with_hosts_block hosts "r" "10.0.0.9" ("a.io" ∷ "b.io" ∷ []) ≡ with_block
unfolding with_hosts_block
publish = refl

withdraw : with_hosts_block with_block "r" "10.0.0.9" [] ≡ hosts
unfolding with_hosts_block
withdraw = refl

trust_block :
    with_ca_block "ROOT\n" "r" "CERT\n\n"
    ≡ "ROOT\n# BEGIN weft-local-dns-reflector r CA (managed by weft-operator; do not edit)\nCERT\n# END weft-local-dns-reflector r CA\n"
unfolding with_ca_block
trust_block = refl

set_lines-absent_example :
    set_lines "B" "E" ("a" ∷ "E" ∷ []) ("x" ∷ []) ≡ "a" ∷ "E" ∷ "B" ∷ "x" ∷ "E" ∷ []
unfolding set_lines
set_lines-absent_example = set_lines-absent "B" "E" ("a" ∷ "E" ∷ []) ("x" ∷ []) (refl, (refl, tt))

set_lines-replace_example :
    set_lines "B" "E" ("a" ∷ "B" ∷ "old" ∷ "E" ∷ "c" ∷ []) ("new" ∷ [])
    ≡ "a" ∷ "B" ∷ "new" ∷ "E" ∷ "c" ∷ []
unfolding set_lines
set_lines-replace_example =
    set_lines-replace "B" "E" ("a" ∷ []) ("old" ∷ []) ("c" ∷ []) ("new" ∷ []) (refl, tt)
      ((refl, refl), tt) (refl, tt)

set_lines-open_example :
    set_lines "B" "E" ("a" ∷ "B" ∷ "c" ∷ []) ("new" ∷ []) ≡ "a" ∷ "B" ∷ "new" ∷ "E" ∷ "c" ∷ []
unfolding set_lines
set_lines-open_example =
    set_lines-open "B" "E" ("a" ∷ []) ("c" ∷ []) ("new" ∷ []) (refl, tt) ((refl, refl), tt)

abbrev broken : List String
broken = "B" ∷ "a" ∷ "B" ∷ "x" ∷ "E" ∷ "" ∷ "B" ∷ []

set_lines-set_lines_example :
    set_lines "B" "E" (set_lines "B" "E" broken ("x" ∷ [])) [] ≡ set_lines "B" "E" broken []
set_lines-set_lines_example = set_lines-set_lines "B" "E" broken "x" [] [] ((refl, refl), tt)

with_managed_block-with_managed_block_example :
    with_managed_block (with_managed_block hosts "B" "E" ("x" ∷ [])) "B" "E" ("y" ∷ [])
    ≡ with_managed_block hosts "B" "E" ("y" ∷ [])
unfolding lines_of set_lines
with_managed_block-with_managed_block_example =
    with_managed_block-with_managed_block hosts "B" "E" "x" [] ("y" ∷ []) ((refl, refl), tt)
      (refl, tt) (refl, tt) ((refl, tt), tt) cons≢nil
