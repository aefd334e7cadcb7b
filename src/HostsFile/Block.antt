-- ===== src/HostsFile/Block.antt =====
-- `set_lines`, the loop of `withManagedBlock` on lines: internal/nodeagent/hostsfile.go.
use weft_operator.Prelude.{
  inl, inr, get_elem?, ℕ, zero, suc, String, ◌≡◌, refl, sym, ap, ◌∙◌, false, Option, none, some,
  List, [], ◌∷◌, ◌++◌, append-nil, append_assoc, ◌==◌, eq_refl, arith, All, All-append, All-take,
  All-drop, length, take, drop, get_or, take-append, drop-append, Bool-cases,
}
use weft_operator.HostsFile.{marker_at, block_length, scan, block, set_lines}

module _ (begin end : String) where
  -- No BEGIN line of the reflector.
  abbrev pub IsForeign : List String → Type 0
  IsForeign = All (λ l. (l == begin) ≡ false)

  -- Neither a BEGIN nor an END line of the reflector.
  abbrev pub IsPlain : List String → Type 0
  IsPlain = All (λ l. ((l == begin) ≡ false) × ((l == end) ≡ false))

  IsPlain-IsForeign : (xs : List String) → IsPlain xs → IsForeign xs
  IsPlain-IsForeign [] h = tt
  IsPlain-IsForeign (x ∷ xs) h = (h.0.0, IsPlain-IsForeign xs h.1)

  scan-foreign :
      (xs rest out : List String) (at : Option ℕ)
      → IsForeign xs
      → scan begin end 0 (xs ++ rest) out at ≡ scan begin end 0 rest (out ++ xs) at
  unfolding scan
  scan-foreign [] rest out at h = rw append-nil
  scan-foreign (x ∷ xs) rest out at h =
      rw (h.0, scan) (scan-foreign xs rest (out ++ x ∷ []) at h.1 ∙ rw append_assoc)

  scan_over_end :
      (xs rest out : List String) (at : Option ℕ)
      → scan begin end (suc (length xs)) (xs ++ end ∷ rest) out at ≡ scan begin end 0 rest out at
  unfolding scan
  scan_over_end [] rest out at = refl
  scan_over_end (x ∷ xs) rest out at = scan_over_end xs rest out at

  marker_at-plain :
      (xs rest : List String) → IsPlain xs → marker_at begin end (xs ++ end ∷ rest) ≡ length xs
  unfolding marker_at
  marker_at-plain [] rest h = rw eq_refl
  marker_at-plain (x ∷ xs) rest h = ground (arith, marker_at-plain xs rest h.1)

  marker_at-length : (xs : List String) → IsPlain xs → marker_at begin end xs ≡ length xs
  unfolding marker_at
  marker_at-length [] h = refl
  marker_at-length (x ∷ xs) h = ground (arith, marker_at-length xs h.1)

  get_elem?-append : (xs rest : List String) → get_elem? (xs ++ end ∷ rest) (length xs) ≡ some end
  get_elem?-append [] rest = refl
  get_elem?-append (x ∷ xs) rest = get_elem?-append xs rest

  get_elem?-length : (xs : List String) → get_elem? xs (length xs) ≡ none
  get_elem?-length [] = refl
  get_elem?-length (x ∷ xs) = get_elem?-length xs

  block_length_complete :
      (body rest : List String)
      → IsPlain body
      → block_length begin end (body ++ end ∷ rest) ≡ suc (length body)
  unfolding block_length
  block_length_complete body rest h =
      let m = marker_at-plain body rest h in
      rw (m, block_length) (rw (get_elem?-append body rest, block_length) (rw eq_refl (ap suc m)))

  block_length-open : (post : List String) → IsPlain post → block_length begin end post ≡ 0
  unfolding block_length
  block_length-open post h =
      rw (marker_at-length post h, block_length) (rw (get_elem?-length post, block_length) refl)

  -- A complete block is dropped, and its place is remembered if it is the first.
  scan_complete :
      (body rest out : List String) (at : Option ℕ)
      → IsPlain body
      → scan begin end 0 (begin ∷ (body ++ end ∷ rest)) out at
        ≡ scan begin end 0 rest out (some (get_or at (length out)))
  unfolding scan
  scan_complete body rest out at h =
      rw (eq_refl, scan)
        (rw (block_length_complete body rest h)
          (scan_over_end body rest out (some (get_or at (length out)))))

  -- The loop keeps no BEGIN line.
  scan-IsForeign :
      (skip : ℕ) (ls out : List String) (at : Option ℕ)
      → IsForeign out
      → IsForeign (scan begin end skip ls out at).0
  unfolding scan
  scan-IsForeign skip [] out at h = h
  scan-IsForeign (suc k) (l ∷ ls) out at h = scan-IsForeign k ls out at h
  scan-IsForeign zero (l ∷ ls) out at h = elim (Bool-cases (l == begin)) [
    | inl e ↦
        rw (e, scan)
          (scan-IsForeign (block_length begin end ls) ls out (some (get_or at (length out))) h)
    | inr e ↦
        rw (e, scan)
          (scan-IsForeign zero ls (out ++ l ∷ []) at (All-append _ out (l ∷ []) h (e, tt)))
  ]

  scan-All :
      (P : String → Type 0) (skip : ℕ) (ls out : List String) (at : Option ℕ)
      → All P ls
      → All P out
      → All P (scan begin end skip ls out at).0
  unfolding scan
  scan-All P skip [] out at hl h = h
  scan-All P (suc k) (l ∷ ls) out at hl h = scan-All P k ls out at hl.1 h
  scan-All P zero (l ∷ ls) out at hl h = elim (Bool-cases (l == begin)) [
    | inl e ↦
        rw (e, scan)
          (scan-All P (block_length begin end ls) ls out (some (get_or at (length out))) hl.1 h)
    | inr e ↦
        rw (e, scan)
          (scan-All P zero ls (out ++ l ∷ []) at hl.1 (All-append P out (l ∷ []) h (hl.0, tt)))
  ]

  -- The new lines are old ones, the two markers and the lines of the block.
  pub set_lines-All :
      (P : String → Type 0) (lines : List String) (b : String) (bs : List String)
      → P begin
      → P end
      → All P lines
      → All P (b ∷ bs)
      → All P (set_lines begin end lines (b ∷ bs))
  unfolding set_lines block
  set_lines-All P lines b bs pb pe hl hb =
      let r : List String × Option ℕ = scan begin end 0 lines [] none in
      let n : ℕ = get_or r.1 (length r.0) in
      let kept : All P r.0 = scan-All P 0 lines [] none hl tt in
      All-append P _ _ (All-take P n r.0 kept) (
        All-append P (block begin end (b ∷ bs)) _ (pb, All-append P (b ∷ bs) _ hb (pe, tt))
          (All-drop P n r.0 kept))

  scan-open :
      (post out : List String) (at : Option ℕ)
      → IsPlain post
      → scan begin end 0 (begin ∷ post) out at
        ≡ scan begin end 0 post out (some (get_or at (length out)))
  unfolding scan
  scan-open post out at h = rw (eq_refl, scan) (rw (block_length-open post h))

  scan-foreign_all :
      (xs out : List String) (at : Option ℕ)
      → IsForeign xs
      → scan begin end 0 xs out at ≡ (out ++ xs, at)
  unfolding scan
  scan-foreign_all xs out at h = rw (append-nil xs) at (scan-foreign xs [] out at h)

  abbrev from_scan : List String → List String × Option ℕ → List String
  from_scan body r =
      let n = get_or r.1 (length r.0) in take n r.0 ++ (block begin end body ++ drop n r.0)

  set_lines-from_scan :
      (lines body : List String)
      → set_lines begin end lines body ≡ from_scan body (scan begin end 0 lines [] none)
  unfolding set_lines
  set_lines-from_scan lines body = refl

  from_scan-append :
      (pre post body : List String)
      → from_scan body (pre ++ post, some (length pre)) ≡ pre ++ (block begin end body ++ post)
  from_scan-append pre post body = cc (take-append pre post, drop-append pre post)

  -- Where the file has no BEGIN line of the reflector, its lines stay as they are, and the block
  -- comes after them.
  pub set_lines-absent :
      (lines body : List String)
      → IsForeign lines
      → set_lines begin end lines body ≡ lines ++ block begin end body
  set_lines-absent lines body h = rw set_lines-from_scan (
      rw (scan-foreign_all lines [] none h) (
        cc (
          take-append lines [],
          drop-append lines [],
          append-nil lines,
          append-nil (block begin end body),
        )))

  -- The lines round one complete block stay as they are and in their place, and only the block
  -- between them is exchanged. The lines before and after it hold no BEGIN line of the reflector,
  -- and the lines in it are no markers of the reflector.
  pub set_lines-replace :
      (pre old post body : List String)
      → IsForeign pre
      → IsPlain old
      → IsForeign post
      → set_lines begin end (pre ++ (begin ∷ (old ++ end ∷ post))) body
        ≡ pre ++ (block begin end body ++ post)
  set_lines-replace pre old post body hp ho hq = rw set_lines-from_scan (
      rw (scan-foreign pre (begin ∷ (old ++ end ∷ post)) [] none hp) (
        rw (scan_complete old post pre none ho)
          (rw (scan-foreign_all post pre (some (length pre)) hq) (from_scan-append pre post body))))

  -- Where the lines before a BEGIN line hold no other BEGIN line and those after it no marker at all, so
  -- that the block is never closed, the BEGIN line alone is lost: the lines around it stay, with the
  -- new block in its place.
  pub set_lines-open :
      (pre post body : List String)
      → IsForeign pre
      → IsPlain post
      → set_lines begin end (pre ++ begin ∷ post) body ≡ pre ++ (block begin end body ++ post)
  set_lines-open pre post body hp ho = rw set_lines-from_scan (
      rw (scan-foreign pre (begin ∷ post) [] none hp) (
        rw (scan-open post pre none ho) (
          rw (scan-foreign_all post pre (some (length pre)) (IsPlain-IsForeign post ho))
            (from_scan-append pre post body))))

  block_assoc :
      (b : String) (bs post : List String)
      → block begin end (b ∷ bs) ++ post ≡ begin ∷ ((b ∷ bs) ++ end ∷ post)
  unfolding block
  block_assoc b bs post = cc (append_assoc bs (end ∷ []) post)

  -- Whatever the file holds, broken and repeated blocks included, a second edit of a file that has
  -- a block forgets the first: the result is that of the second edit alone. So an edit that is made
  -- twice changes nothing the second time, and a block that is taken away leaves what taking it
  -- away before would have left. The lines of the first block are no markers of the reflector.
  pub set_lines-set_lines :
      (lines : List String) (b : String) (bs body : List String)
      → IsPlain (b ∷ bs)
      → set_lines begin end (set_lines begin end lines (b ∷ bs)) body
        ≡ set_lines begin end lines body
  set_lines-set_lines lines b bs body h =
      let r : List String × Option ℕ = scan begin end 0 lines [] none in
      let n : ℕ = get_or r.1 (length r.0) in
      let kept : IsForeign r.0 = scan-IsForeign 0 lines [] none tt in
      ap (λ l. set_lines begin end l body)
        (set_lines-from_scan lines (b ∷ bs)
          ∙ ap (λ l. take n r.0 ++ l) (block_assoc b bs (drop n r.0)))
      ∙ (set_lines-replace (take n r.0) (b ∷ bs) (drop n r.0) body (All-take _ n r.0 kept) h
            (All-drop _ n r.0 kept)
          ∙ sym (set_lines-from_scan lines body))
