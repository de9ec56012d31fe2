-- ===== src/Request/Read.antt =====
-- `vt_request_parse` (src/req.c): reading the lines of a request from a connection.
-- What `read` returns is a list of results, the end of the list being the end of the file.
use valiant.Prelude.{
  ℕ, zero, suc, ◌-◌, Bool, ◌||◌, Option, none, some, List, [], ◌∷◌, ◌++◌, ◌==◌, ltb, if◌then◌else◌,
  Bytes, length, take, drop,
}
use valiant.Request.{Request, parse_line}
use valiant.Request.Buffer.{Buffers}

-- One call of `read`: EINTR, another error, or bytes (none at the end of the file).
pub data ReadResult : Type 0 where
  interrupted failed : ReadResult
  got : Bytes → ReadResult

abbrev pub buflen : ℕ
buflen = 1024

unfoldable pub is_term : ℕ → Bool
is_term c = c == b'\n' || c == b'\r'

-- `for (j=i; j < n && !isterm (*(buf+j)); j++);`: the steps it makes
unfoldable pub line_len : Bytes → ℕ
line_len [] = 0
line_len (c ∷ cs) = let next = suc (line_len cs) in if is_term c then 0 else next

-- `for (i=j; i < n && isterm (*(buf+i)); i++);`: the bytes it stops before
unfoldable pub skip_terms : Bytes → Bytes
skip_terms [] = []
skip_terms (c ∷ cs) = let next = skip_terms cs in if is_term c then next else c ∷ cs

module _ (B : Buffers) where
  -- The loop over the lines in the buffer, from the byte `i` on. It gives the request and the bytes
  -- from the last `i` on; every round takes a byte at least, so as much fuel as bytes is enough.
  unfoldable pub parse_lines : ℕ → Request B.Buf → Bytes → Option (Request B.Buf × Bytes)
  parse_lines zero req buf = some (req, buf)
  parse_lines (suc fuel) req [] = some (req, [])
  parse_lines (suc fuel) req (c ∷ cs) =
      let k = line_len (c ∷ cs) in
      let more : Option (Request B.Buf × Bytes) = elim (parse_line B req (c ∷ cs) k) [
        | none ↦ none
        | some r ↦ parse_lines fuel r (skip_terms (drop k (c ∷ cs)))
      ] in
      if ltb k (length (c ∷ cs)) then more else some (req, c ∷ cs)

  -- The outer loop, with the bytes that the buffer holds.
  unfoldable pub parse_reads : List ReadResult → Request B.Buf → Bytes → Option (Request B.Buf)
  parse_reads [] req buf = if buflen - length buf == 0 then none else some req
  parse_reads (failed ∷ rs) req buf = none
  parse_reads (interrupted ∷ rs) req buf =
      let again = parse_reads rs req buf in if buflen - length buf == 0 then none else again
  parse_reads (got [] ∷ rs) req buf = if buflen - length buf == 0 then none else some req
  parse_reads (got (c ∷ cs) ∷ rs) req buf =
      let buf' = buf ++ take (buflen - length buf) (c ∷ cs) in
      let on : Option (Request B.Buf) = elim (parse_lines (length buf') req buf') [
        | none ↦ none
        | some (r, rest) ↦
            let kept = parse_reads rs r rest in
            let full = parse_reads rs r buf' in
            if length rest == length buf'
            then full
            else if length rest == 0
            then (if ltb (length buf') buflen then some r else full)
            else kept
      ] in
      if buflen - length buf == 0 then none else on

  -- `vt_request_parse`
  unfoldable pub parse : List ReadResult → Request B.Buf → Option (Request B.Buf)
  parse reads req = parse_reads reads req []
