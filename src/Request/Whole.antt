-- ===== src/Request/Whole.antt =====
-- `vt_request_parse` on whole requests, whatever pieces the connection delivers them in.
use valiant.Prelude.{
  ℕ, ◌<◌, ◌≡◌, ◌≢◌, refl, ap, ◌∙◌, false, Option, none, some, List, [], ◌∷◌, ◌++◌, arith, Bytes,
  length, All, length-append,
}
use mathlib.Core.List.{append_assoc}
use valiant.Request.{Request}
use valiant.Request.Buffer.{Buffers}
use valiant.Request.Lines.{
  IsLine, text, parse_each, parse_reads_complete, parse_reads-open, parse_reads-exact,
  parse_reads-interrupted,
}
use valiant.Request.Read.{ReadResult, got, interrupted, buflen, is_term, parse_reads, parse}

-- The bytes of the pieces, end to end; `none` stands for an interrupted read.
abbrev pub join : List (Option Bytes) → Bytes
join [] = []
join (none ∷ ps) = join ps
join (some p ∷ ps) = p ++ join ps

-- What `read` returns for the pieces.
abbrev pub reads : List (Option Bytes) → List ReadResult → List ReadResult
reads [] rs = rs
reads (none ∷ ps) rs = interrupted ∷ reads ps rs
reads (some p ∷ ps) rs = got p ∷ reads ps rs

All-left : (P : ℕ → Type 0) (xs ys : Bytes) → All P (xs ++ ys) → All P xs
All-left P [] ys h = tt
All-left P (x ∷ xs) ys h = (h.0, All-left P xs ys h.1)

module _ (B : Buffers) (req : Request B.Buf) (rs : List ReadResult) where
  parse_reads-pieces :
      (pieces : List (Option Bytes)) (buf last : Bytes) (ls : List Bytes)
      → All (λ p. p ≢ some []) pieces
      → All (λ c. is_term c ≡ false) (buf ++ join pieces)
      → last ≢ []
      → buf ++ (join pieces ++ last) ≡ text ls
      → length (text ls) < buflen
      → All IsLine ls
      → parse_reads B (reads pieces (got last ∷ rs)) req buf ≡ parse_each B req ls
  parse_reads-pieces [] buf last ls full open_line ne e room h =
      parse_reads_complete B rs req buf last ls e ne room h
  parse_reads-pieces (none ∷ ps) buf last ls full open_line ne e room h =
      parse_reads-interrupted B (reads ps (got last ∷ rs)) req buf
        (omega (arith, ap length e, length-append buf (join ps ++ last)))
      ∙ parse_reads-pieces ps buf last ls full.1 open_line ne e room h
  parse_reads-pieces (some p ∷ ps) buf last ls full open_line ne e room h =
      let assoc = append_assoc buf p (join ps) in
      let len1 = ap length e in
      let len2 = length-append buf ((p ++ join ps) ++ last) in
      let len3 = length-append (p ++ join ps) last in
      let len4 = length-append p (join ps) in
      parse_reads-open B (reads ps (got last ∷ rs)) req buf p
        (All-left _ (buf ++ p) (join ps) (rw assoc open_line)) (λ z. full.0 (ap some z))
        (omega (arith, len1, len2, len3, len4, length-append buf p))
      ∙ parse_reads-pieces ps (buf ++ p) last ls full.1 (rw assoc open_line) ne
          (rw (append_assoc buf p (join ps ++ last)) (rw append_assoc at e)) room h

-- A request of complete lines that is shorter than the buffer is parsed line by line, each line once
-- and in order, if it is read in pieces (with interruptions) of which only the last has a line's end.
pub parse-eq-parse_each :
    (B : Buffers) (req : Request B.Buf) (rs : List ReadResult) (pieces : List (Option Bytes))
    (last : Bytes) (ls : List Bytes)
    → All (λ p. p ≢ some []) pieces
    → All (λ c. is_term c ≡ false) (join pieces)
    → last ≢ []
    → join pieces ++ last ≡ text ls
    → length (text ls) < buflen
    → All IsLine ls
    → parse B (reads pieces (got last ∷ rs)) req ≡ parse_each B req ls
unfolding parse
parse-eq-parse_each B req rs pieces last ls = parse_reads-pieces B req rs pieces [] last ls

-- A request of complete lines that fills the buffer to its last byte is refused, whatever its lines
-- are and whatever is read behind it.
pub parse-full_buffer :
    (B : Buffers) (req : Request B.Buf) (rs : List ReadResult) (ls : List Bytes)
    → length (text ls) ≡ buflen
    → All IsLine ls
    → parse B (got (text ls) ∷ rs) req ≡ none
unfolding parse
parse-full_buffer B req rs ls len h =
    parse_reads-exact B rs req [] (text ls) ls refl (λ z. absurd (omega (arith, ap length z))) len h
