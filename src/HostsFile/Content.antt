-- ===== src/HostsFile/Content.antt =====
-- The content of a node file across two edits of it: `withManagedBlock` of internal/nodeagent/hostsfile.go.
use Prim.Native.Char.{Char, code}
use text.Mathlib.TextLemmas.{nil-append, cons-append, append-eq-nil_iff, cons≢nil}
use weft_operator.Prelude.{
  String, ◌≡◌, ◌≢◌, refl, false, List, [], ◌∷◌, ◌==◌, All, eqb, is_empty, Bool-cases, text_cases,
  inl, inr, if◌then◌else◌,
}
use weft_operator.Prelude.Text.{◌<>◌, join, trim_right, is_newline}
use weft_operator.Prelude.Split.{LacksCode, split-join, split-LacksCode}
use weft_operator.HostsFile.{lines_of, set_lines, with_managed_block}
use weft_operator.HostsFile.Block.{IsPlain, set_lines-All, set_lines-set_lines}

-- A text of one line.
abbrev pub IsLine : String → Type 0
IsLine = LacksCode 10

-- The text ends, and not with a newline.
abbrev EndsFilled : String → Type 0
EndsFilled String.[] = ⊥
EndsFilled (String.◌∷◌ c String.[]) = eqb (code c) 10 ≡ false
EndsFilled (String.◌∷◌ c (String.◌∷◌ d s)) = EndsFilled (String.◌∷◌ d s)

-- There is a last line, and it is not blank.
abbrev pub LastFilled : List String → Type 0
LastFilled [] = ⊥
LastFilled (l ∷ []) = l ≢ ""
LastFilled (l ∷ m ∷ ls) = LastFilled (m ∷ ls)

trim-append : (s : String) → trim_right is_newline (s <> "\n") ≡ trim_right is_newline s
unfolding trim_right
trim-append String.[] = refl
trim-append (String.◌∷◌ c s) = rw cons-append (rw (trim-append s) refl)

trim-EndsFilled : (s : String) → EndsFilled s → trim_right is_newline s ≡ s
unfolding trim_right
trim-EndsFilled String.[] h = absurd h
trim-EndsFilled (String.◌∷◌ c String.[]) h = rw h refl
trim-EndsFilled (String.◌∷◌ c (String.◌∷◌ d s)) h = rw (trim-EndsFilled (String.◌∷◌ d s) h) refl

EndsFilled-cons : (c : Char) (s : String) → EndsFilled s → EndsFilled (String.◌∷◌ c s)
EndsFilled-cons c String.[] h = absurd h
EndsFilled-cons c (String.◌∷◌ d s) h = h

EndsFilled-append : (s t : String) → EndsFilled t → EndsFilled (s <> t)
EndsFilled-append String.[] t h = rw nil-append h
EndsFilled-append (String.◌∷◌ c s) t h =
    rw cons-append (EndsFilled-cons c (s <> t) (EndsFilled-append s t h))

EndsFilled-line : (s : String) → IsLine s → s ≢ "" → EndsFilled s
EndsFilled-line String.[] h k = absurd (k refl)
EndsFilled-line (String.◌∷◌ c String.[]) h k = h.0
EndsFilled-line (String.◌∷◌ c (String.◌∷◌ d s)) h k = EndsFilled-line (String.◌∷◌ d s) h.1 cons≢nil

EndsFilled-join : (ls : List String) → All IsLine ls → LastFilled ls → EndsFilled (join "\n" ls)
EndsFilled-join [] h k = absurd k
EndsFilled-join (l ∷ []) h k = EndsFilled-line l h.0 k
EndsFilled-join (l ∷ m ∷ ls) h k =
    EndsFilled-append l ("\n" <> join "\n" (m ∷ ls))
      (EndsFilled-append "\n" (join "\n" (m ∷ ls)) (EndsFilled-join (m ∷ ls) h.1 k))

append_newline-ne : (s : String) → (s <> "\n" == "") ≡ false
append_newline-ne s = elim (text_cases (s <> "\n") "") [
  | inl (_, e) ↦ absurd (cons≢nil (append-eq-nil_iff.0 e).1)
  | inr (e, _) ↦ e
]

-- The lines that are written are the lines that are read.
lines_of-join :
    (ls : List String)
    → All IsLine ls
    → LastFilled ls
    → lines_of (if is_empty ls then "" else join "\n" ls <> "\n") ≡ ls
unfolding lines_of
lines_of-join [] h k = absurd k
lines_of-join (l ∷ ls) h k =
    let text : String = join "\n" (l ∷ ls) in
    rw (append_newline-ne text, lines_of)
      (rw (trim-append text)
        (rw (trim-EndsFilled text (EndsFilled-join (l ∷ ls) h k)) (split-join "\n" l ls h)))

lines_of-IsLine : (content : String) → All IsLine (lines_of content)
unfolding lines_of
lines_of-IsLine content = elim (Bool-cases (content == "")) [
  | inl e ↦ rw e tt
  | inr e ↦ rw e (split-LacksCode 10 (trim_right is_newline content))
]

-- A second edit of the same block of a file forgets the first: the content is that of the second
-- edit alone, byte for byte. The first edit sets a block (its body is not empty), whose lines are no
-- markers; the markers and the body's lines are single lines; and the last line of the content that
-- the first edit writes is not blank.
pub with_managed_block-with_managed_block :
    (content begin end : String) (b : String) (bs body : List String)
    → IsPlain begin end (b ∷ bs)
    → IsLine begin
    → IsLine end
    → All IsLine (b ∷ bs)
    → LastFilled (set_lines begin end (lines_of content) (b ∷ bs))
    → with_managed_block (with_managed_block content begin end (b ∷ bs)) begin end body
      ≡ with_managed_block content begin end body
unfolding with_managed_block
with_managed_block-with_managed_block content begin end b bs body plain hb he hl filled =
    let lines : List String = lines_of content in
    let out : List String = set_lines begin end lines (b ∷ bs) in
    let read : lines_of (if is_empty out then "" else join "\n" out <> "\n") ≡ out =
      lines_of-join out
        (set_lines-All begin end IsLine lines b bs hb he (lines_of-IsLine content) hl) filled in
    rw read (rw (set_lines-set_lines begin end lines b bs body plain))
