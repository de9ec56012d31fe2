-- ===== src/Request/Lines.antt =====
-- `vt_request_parse`: every line of a request is parsed once, in order.
use valiant.Prelude.{
  ℕ, zero, suc, ◌+◌, ◌-◌, ◌≤◌, ◌<◌, ◌≡◌, ◌≢◌, refl, sym, ap, ◌∙◌, true, false, Option, none, some,
  List, [], ◌∷◌, ◌++◌, arith, ◌==◌, ltb, Bytes, length, take, drop, All, length-append, drop-append,
  take_all, lt→ltb, Option-cases, inl, inr,
}
use valiant.Request.{Request, parse_line}
use valiant.Request.Buffer.{Buffers}
use valiant.Request.Read.{
  ReadResult, interrupted, failed, got, buflen, is_term, line_len, skip_terms, parse_lines,
  parse_reads,
}

-- A line of the protocol: not empty, and with no terminator in it.
abbrev pub IsLine : Bytes → Type 0
IsLine l = (l ≢ []) × All (λ c. is_term c ≡ false) l

-- The text of the lines, each ended by a newline.
abbrev pub text : List Bytes → Bytes
text [] = []
text (l ∷ ls) = l ++ (b'\n' ∷ text ls)

-- One call of `vt_request_parse_line` for each line, on the text from the line on.
abbrev pub parse_each : (B : Buffers) → Request B.Buf → List Bytes → Option (Request B.Buf)
parse_each B req [] = some req
parse_each B req (l ∷ ls) = elim (parse_line B req (text (l ∷ ls)) (length l)) [
  | none ↦ none
  | some r ↦ parse_each B r ls
]

line_len-line :
    (l rest : Bytes) → All (λ c. is_term c ≡ false) l → line_len (l ++ (b'\n' ∷ rest)) ≡ length l
unfolding line_len is_term
line_len-line [] rest h = refl
line_len-line (c ∷ l) rest h = ground (arith, line_len-line l rest h.1)

line_len-open : (l : Bytes) → All (λ c. is_term c ≡ false) l → line_len l ≡ length l
unfolding line_len
line_len-open [] h = refl
line_len-open (c ∷ l) h = ground (arith, line_len-open l h.1)

skip_terms-text : (ls : List Bytes) → All IsLine ls → skip_terms (b'\n' ∷ text ls) ≡ text ls
unfolding skip_terms is_term
skip_terms-text [] h = refl
skip_terms-text ([] ∷ ls) h = absurd (h.0.0 refl)
skip_terms-text ((c ∷ l) ∷ ls) h = ground arith

length-text_le : (l : Bytes) (ls : List Bytes) → length (text ls) < length (text (l ∷ ls))
length-text_le l ls = omega (arith, length-append l (b'\n' ∷ text ls))

pub parse_lines-text :
    (B : Buffers) (fuel : ℕ) (req : Request B.Buf) (ls : List Bytes)
    → All IsLine ls
    → length (text ls) ≤ fuel
    → parse_lines B fuel req (text ls)
      ≡ elim (parse_each B req ls) as (λ _. Option (Request B.Buf × Bytes)) [
        | none ↦ none
        | some r ↦ some (r, [])
      ]
unfolding parse_lines
parse_lines-text B zero req [] h f = refl
parse_lines-text B (suc fuel) req [] h f = refl
parse_lines-text B zero req (l ∷ ls) h f = absurd (omega (arith, length-text_le l ls))
parse_lines-text B (suc fuel) req ([] ∷ ls) h f = absurd (h.0.0 refl)
parse_lines-text B (suc fuel) req ((c ∷ l) ∷ ls) h f =
    let whole = c ∷ l in
    let e1 : line_len (text (whole ∷ ls)) ≡ length whole = line_len-line whole (text ls) h.0.1 in
    let e2 : ltb (length whole) (length (text (whole ∷ ls))) ≡ true =
      lt→ltb _ _ (omega (arith, length-append whole (b'\n' ∷ text ls))) in
    let e3 : drop (length whole) (text (whole ∷ ls)) ≡ b'\n' ∷ text ls =
      drop-append whole (b'\n' ∷ text ls) in
    let e4 = skip_terms-text ls h.1 in
    let room : length (text ls) ≤ fuel = omega (arith, length-text_le whole ls) in
    elim (Option-cases (parse_line B req (text (whole ∷ ls)) (length whole))) [
      | inl failed_line ↦ ground (arith, e1, e2, failed_line)
      | inr (r, e) ↦ ground (arith, e, e1, e2, e3, e4, parse_lines-text B fuel r ls h.1 room)
    ]

-- text with no terminator stays in the buffer
parse_lines-open :
    (B : Buffers) (fuel : ℕ) (req : Request B.Buf) (l : Bytes)
    → All (λ c. is_term c ≡ false) l
    → parse_lines B fuel req l ≡ some (req, l)
unfolding parse_lines
parse_lines-open B zero req l h = refl
parse_lines-open B (suc fuel) req [] h = refl
parse_lines-open B (suc fuel) req (c ∷ l) h = ground (arith, line_len-open (c ∷ l) h)

-- a full buffer is an error whatever is read next
pub parse_reads-full :
    (B : Buffers) (rs : List ReadResult) (req : Request B.Buf) (buf : Bytes)
    → length buf ≡ buflen
    → parse_reads B rs req buf ≡ none
unfolding parse_reads
parse_reads-full B [] req buf h = ground arith
parse_reads-full B (interrupted ∷ rs) req buf h = ground arith
parse_reads-full B (failed ∷ rs) req buf h = refl
parse_reads-full B (got [] ∷ rs) req buf h = ground arith
parse_reads-full B (got (c ∷ cs) ∷ rs) req buf h = rw h

module _ (B : Buffers) (rs : List ReadResult) (req : Request B.Buf) (buf chunk : Bytes) where
  -- what a read that fits adds to the buffer
  filled : length (buf ++ chunk) ≤ buflen → buf ++ take (buflen - length buf) chunk ≡ buf ++ chunk
  filled room =
      ap (λ x. buf ++ x)
        (take_all (buflen - length buf) chunk (omega (arith, length-append buf chunk)))

module _ (B : Buffers) (rs : List ReadResult) (req : Request B.Buf) (buf : Bytes) where
  pub parse_reads_complete :
      (chunk : Bytes) (ls : List Bytes)
      → buf ++ chunk ≡ text ls
      → chunk ≢ []
      → length (text ls) < buflen
      → All IsLine ls
      → parse_reads B (got chunk ∷ rs) req buf ≡ parse_each B req ls
  unfolding parse_reads
  parse_reads_complete [] ls e ne room h = absurd (ne refl)
  parse_reads_complete (c ∷ cs) ls e ne room h =
      let chunk : Bytes = c ∷ cs in
      let len : length buf + length chunk ≡ length (text ls) =
        sym (length-append buf chunk) ∙ ap length e in
      let some_room : (buflen - length buf == 0) ≡ false = ground arith in
      let whole : buf ++ take (buflen - length buf) chunk ≡ text ls =
        filled B rs req buf chunk (omega (arith, length-append buf chunk)) ∙ e in
      let lines = parse_lines-text B (length (text ls)) req ls h (omega arith) in
      rw (whole, some_room)
        (elim (Option-cases (parse_each B req ls)) [
          | inl bad ↦ ground (arith, lines, bad)
          | inr (r, good) ↦ ground (arith, lines, good)
        ])

  pub parse_reads-open :
      (chunk : Bytes)
      → All (λ c. is_term c ≡ false) (buf ++ chunk)
      → chunk ≢ []
      → length (buf ++ chunk) ≤ buflen
      → parse_reads B (got chunk ∷ rs) req buf ≡ parse_reads B rs req (buf ++ chunk)
  unfolding parse_reads
  parse_reads-open [] h ne room = absurd (ne refl)
  parse_reads-open (c ∷ cs) h ne room =
      let whole = filled B rs req buf (c ∷ cs) room in
      let len = length-append buf (c ∷ cs) in
      let some_room : (buflen - length buf == 0) ≡ false = ground arith in
      let lines = parse_lines-open B (length (buf ++ (c ∷ cs))) req (buf ++ (c ∷ cs)) h in
      rw (whole, some_room) (ground (arith, lines))

-- complete lines that fill the buffer leave no room for the next read
pub parse_reads-exact :
    (B : Buffers) (rs : List ReadResult) (req : Request B.Buf) (buf chunk : Bytes) (ls : List Bytes)
    → buf ++ chunk ≡ text ls
    → chunk ≢ []
    → length (text ls) ≡ buflen
    → All IsLine ls
    → parse_reads B (got chunk ∷ rs) req buf ≡ none
unfolding parse_reads
parse_reads-exact B rs req buf [] ls e ne room h = absurd (ne refl)
parse_reads-exact B rs req buf (c ∷ cs) ls e ne room h =
    let chunk : Bytes = c ∷ cs in
    let len : length buf + length chunk ≡ length (text ls) =
      sym (length-append buf chunk) ∙ ap length e in
    let some_room : (buflen - length buf == 0) ≡ false = ground arith in
    let whole : buf ++ take (buflen - length buf) chunk ≡ text ls =
      filled B rs req buf chunk (omega (arith, length-append buf chunk)) ∙ e in
    let lines = parse_lines-text B (length (text ls)) req ls h (omega arith) in
    rw (whole, some_room)
      (elim (Option-cases (parse_each B req ls)) [
        | inl bad ↦ ground (arith, lines, bad)
        | inr (r, good) ↦
            rw (lines, good)
              (rw whole (ground (arith, room, parse_reads-full B rs r (text ls) room)))
      ])

pub parse_reads-interrupted :
    (B : Buffers) (rs : List ReadResult) (req : Request B.Buf) (buf : Bytes)
    → length buf < buflen
    → parse_reads B (interrupted ∷ rs) req buf ≡ parse_reads B rs req buf
unfolding parse_reads
parse_reads-interrupted B rs req buf h = ground arith
