-- ===== src/Request/Stale.antt =====
-- The lines of `vt_request_parse_line` that leave something of an earlier request in place.
use valiant.Prelude.{
  ◌+◌, ◌-◌, ◌≡◌, ◌≢◌, refl, ap, ◌∙◌, false, some, [], ◌++◌, arith, Bytes, strncmp, length, drop,
  ◌==◌, char_at, take-append, drop-append, length-append, All,
}
use valiant.Request.{
  Member, Request, line_member, domain_member, at_steps, parse_domain, parse_line, mbrbyid,
}
use valiant.Request.Buffer.{Buffers, StoresCopies}
use valiant.Request.Line.{
  prefix, HasLine, Keeps, parse_domain-lem, at_steps-none, char_at-append, copy_member-lem,
  has_buffer, parse_line-split,
}

module _ (B : Buffers) (r : Request B.Buf) (pre value rest : Bytes) where
  -- the loop for the `@` stops at the end of the line
  no_at_found :
      All (λ c. c ≢ b'@') value
      → char_at rest 0 ≢ b'@'
      → let p = length pre in
        let str = pre ++ (value ++ rest) in
        (char_at str (p + at_steps (drop p str) (p + length value - p)) == b'@') ≡ false
  no_at_found no_at end =
      let p = length pre in
      let e1 : p + length value - p ≡ length value = omega arith in
      let e2 : length value ≡ length value + 0 = omega arith in
      rw
        (
          drop-append pre (value ++ rest),
          e1,
          at_steps-none value rest no_at,
          char_at-append pre (value ++ rest) (length value),
        )
        (rw (e2, char_at-append value rest 0) (ground arith))

  parse_domain-absent :
      (d : Member)
      → All (λ c. c ≢ b'@') value
      → char_at rest 0 ≢ b'@'
      → parse_domain B r d (pre ++ (value ++ rest)) (length pre) (length pre + length value)
        ≡ some r
  parse_domain-absent Member.none_member no_at end = unfold parse_domain in refl
  parse_domain-absent d no_at end =
      parse_domain-lem B r d _ _ _ (λ e. cc) ∙ rw (no_at_found no_at end)

-- A line `name=value` whose value is not empty and holds no `@`, nor does the byte behind the line,
-- changes the named member alone: the domain of an address without one stays what it was.
parse_line-no_domain :
    (B : Buffers) (law : StoresCopies B) (req : Request B.Buf) (m : Member) (value rest : Bytes)
    → HasLine m
    → value ≢ []
    → All (λ c. c ≢ b'@') value
    → char_at rest 0 ≢ b'@'
    → (r : Request B.Buf) × (parse_line B req
          (prefix m ++ (value ++ rest))
          (length (prefix m) + length value)
        ≡ some r)
      × (mbrbyid B r m ≡ some value)
      × Keeps B (λ k. k ≡ m) req r
parse_line-no_domain B law req m value rest hl ne no_at end =
    let (b, hb) = has_buffer B law m req (λ e. hl (rw e)) in
    let (r, er, vr, kr) =
      copy_member-lem B law req m (value ++ rest) (length value) hb
        (omega (arith, length-append value rest)) in
    (
      r,
      parse_line-split B law req r m value rest hl ne er
          ∙ parse_domain-absent B r (prefix m) value rest (domain_member m) no_at end,
      vr ∙ ap some (take-append value rest),
      kr,
    )

-- A line whose value is empty, such as `sender=`, is not taken for a line of its attribute: the
-- request stays as it was, whatever an earlier request left in it.
pub parse_line-empty :
    (B : Buffers) (req : Request B.Buf) (m : Member) (rest : Bytes)
    → parse_line B req (prefix m ++ rest) (length (prefix m)) ≡ some req
unfolding parse_line line_member strncmp
parse_line-empty B req Member.none_member rest = refl
parse_line-empty B req _ rest = refl
