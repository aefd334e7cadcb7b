-- ===== src/HostsFile.antt =====
-- internal/nodeagent/hostsfile.go: the edits of the node files that the agent shares with other
-- tools. A file is a text; the agent owns one tagged block of lines per reflector and file.
pub mod Block
pub mod Content
use weft_operator.Prelude.{
  ℕ, zero, suc, String, Option, none, some, List, [], ◌∷◌, ◌++◌, true, false, ◌||◌, ◌==◌, length,
  take, drop, get_elem?, get_or, is_empty, if◌then◌else◌,
}
use weft_operator.Prelude.Text.{◌<>◌, join, split, trim_right, trim_space, is_newline}

unfoldable pub block_begin : String → String
block_begin reflector =
    "# BEGIN weft-local-dns-reflector " <> (reflector <> " (managed by weft-operator; do not edit)")

unfoldable pub block_end : String → String
block_end reflector = "# END weft-local-dns-reflector " <> reflector

unfoldable pub ca_block_begin : String → String
ca_block_begin reflector =
    "# BEGIN weft-local-dns-reflector "
    <> (reflector <> " CA (managed by weft-operator; do not edit)")

unfoldable pub ca_block_end : String → String
ca_block_end reflector = "# END weft-local-dns-reflector " <> (reflector <> " CA")

-- The lines of a file's content.
unfoldable pub lines_of : String → List String
unfolding split trim_right
lines_of content = if content == "" then [] else split 10 (trim_right is_newline content)

module _ (begin end : String) where
  -- The inner loop over `j`: how many lines stand before the next marker.
  unfoldable pub marker_at : List String → ℕ
  marker_at [] = 0
  marker_at (l ∷ ls) = if (l == end) || (l == begin) then 0 else suc (marker_at ls)

  -- How far `i` moves past a BEGIN line: over the block and its END, or not at all.
  unfoldable pub block_length : List String → ℕ
  unfolding marker_at
  block_length ls = elim (get_elem? ls (marker_at ls)) [
    | none ↦ 0
    | some l ↦ if l == end then suc (marker_at ls) else 0
  ]

  -- The outer loop over `i`, with the lines still to be skipped, `out` and `insertAt` (`none` is -1).
  unfoldable pub scan : ℕ → List String → List String → Option ℕ → List String × Option ℕ
  unfolding block_length
  scan skip [] out at = (out, at)
  scan (suc k) (l ∷ ls) out at = scan k ls out at
  scan zero (l ∷ ls) out at = elim (l == begin) [
    | true ↦ scan (block_length ls) ls out (some (get_or at (length out)))
    | false ↦ scan zero ls (out ++ l ∷ []) at
  ]

  unfoldable pub block : List String → List String
  block [] = []
  block (b ∷ bs) = begin ∷ ((b ∷ bs) ++ end ∷ [])

  -- The new lines of the file.
  unfoldable pub set_lines : List String → List String → List String
  unfolding scan block
  set_lines lines body =
      let (out, at) = scan 0 lines [] none in
      let n = get_or at (length out) in take n out ++ (block body ++ drop n out)

unfoldable pub with_managed_block : String → String → String → List String → String
unfolding lines_of set_lines
with_managed_block content begin end body =
    let out = set_lines begin end (lines_of content) body in
    if is_empty out then "" else join "\n" out <> "\n"

unfoldable pub with_hosts_block : String → String → String → List String → String
unfolding with_managed_block block_begin block_end
with_hosts_block content reflector ip hostnames =
    with_managed_block content (block_begin reflector) (block_end reflector)
      (if is_empty hostnames then [] else (ip <> (" " <> join " " hostnames)) ∷ [])

unfoldable pub with_ca_block : String → String → String → String
unfolding with_managed_block ca_block_begin ca_block_end trim_space split
with_ca_block content reflector ca_pem =
    let trimmed = trim_space ca_pem in
    with_managed_block content (ca_block_begin reflector) (ca_block_end reflector)
      (if trimmed == "" then [] else split 10 trimmed)
