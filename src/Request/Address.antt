-- ===== src/Request/Address.antt =====
-- The lines of an address in `vt_request_parse_line`: the address and its domain.
use valiant.Prelude.{
  ℕ, zero, suc, ◌+◌, ◌-◌, ◌≡◌, ◌≢◌, refl, ap, ◌∙◌, ◌⊎◌, inl, inr, true, some, [], ◌∷◌, ◌++◌, arith,
  Bytes, length, drop, ltb, char_at, take-append, drop-append, length-append, All, lt→ltb,
}
use mathlib.Core.List.{append_assoc}
use native.Mathlib.Nat.{suc-add}
use valiant.Request.{
  Member, Request, domain_member, at_steps, copy_member, parse_domain, parse_line, mbrbyid,
}
use valiant.Request.Buffer.{Buffers, StoresCopies}
use valiant.Request.Line.{
  prefix, HasDomain, HasDomain-HasLine, HasDomain-ne, HasDomain-domain_ne, domain_member-ne, Keeps,
  mbrbyid-congr, parse_domain-lem, at_steps-local, char_at-append, copy_member-lem, has_buffer,
  parse_line-split,
}

drop-add : (xs : Bytes) (n m : ℕ) → drop (n + m) xs ≡ drop m (drop n xs)
drop-add xs zero m = ap (λ k. drop k xs) (omega arith)
drop-add [] (suc n) zero = rw suc-add
drop-add [] (suc n) (suc m) = rw suc-add
drop-add (x ∷ xs) (suc n) m = rw suc-add (drop-add xs n m)

append-ne-nil : (w v : Bytes) → w ++ (b'@' ∷ v) ≢ []
append-ne-nil [] v e = cc
append-ne-nil (x ∷ w) v e = cc

drop-behind : (w rest : Bytes) (c : ℕ) → drop (suc (length w)) (w ++ (c ∷ rest)) ≡ rest
drop-behind [] rest c = refl
drop-behind (x ∷ w) rest c = drop-behind w rest c

module _ (B : Buffers) (r : Request B.Buf) (d : Member) (pre local : Bytes) where
  parse_domain-address :
      (domain rest : Bytes)
      → d ≢ Member.none_member
      → All (λ c. c ≢ b'@') local
      → domain ≢ []
      → parse_domain B r d
          (pre ++ (local ++ (b'@' ∷ (domain ++ rest))))
          (length pre)
          (length pre + (length local + suc (length domain)))
        ≡ copy_member B r d (domain ++ rest) (length domain)
  parse_domain-address [] rest hd no_at ne = absurd (ne refl)
  parse_domain-address (x ∷ domain) rest hd no_at ne =
      let p = length pre in
      let l = length local in
      let dom : Bytes = x ∷ domain in
      let tail : Bytes = b'@' ∷ (dom ++ rest) in
      let e1 : p + (l + suc (length dom)) - p ≡ l + suc (length dom) = omega arith in
      let e2 : at_steps (local ++ tail) (l + suc (length dom)) ≡ l =
        at_steps-local local (dom ++ rest) (length dom) no_at in
      let e3 : char_at (pre ++ (local ++ tail)) (p + l) ≡ b'@' =
        char_at-append pre (local ++ tail) l
        ∙ ap (char_at (local ++ tail)) (omega arith)
        ∙ char_at-append local tail 0 in
      let e4 : ltb (suc (p + l)) (p + (l + suc (length dom))) ≡ true = lt→ltb _ _ (omega arith) in
      let k5 : suc (p + l) ≡ p + suc l = omega arith in
      let e5 : drop (suc (p + l)) (pre ++ (local ++ tail)) ≡ dom ++ rest =
        ap (λ k. drop k (pre ++ (local ++ tail))) k5
        ∙ drop-add (pre ++ (local ++ tail)) p (suc l)
        ∙ ap (drop (suc l)) (drop-append pre (local ++ tail))
        ∙ drop-behind local (dom ++ rest) b'@' in
      let e6 : p + (l + suc (length dom)) - suc (p + l) ≡ length dom = omega arith in
      parse_domain-lem B r d _ _ _ hd ∙ rw (drop-append pre (local ++ tail), e1, e2, e3, e4, e5, e6)

module _ (B : Buffers) (law : StoresCopies B) where
  -- A line `sender=local@domain` (or recipient) with no other `@` before the first and a domain that
  -- is not empty succeeds: the member holds the whole address, the member for its domain holds what
  -- stands behind the `@`, and every other member is as it was.
  pub parse_line-address :
      (req : Request B.Buf) {m : Member} (local domain rest : Bytes)
      → HasDomain m
      → All (λ c. c ≢ b'@') local
      → domain ≢ []
      → let value = local ++ (b'@' ∷ domain) in
        (r : Request B.Buf) × (parse_line B req
            (prefix m ++ (value ++ rest))
            (length (prefix m) + length value)
          ≡ some r)
        × (mbrbyid B r m ≡ some value)
        × (mbrbyid B r (domain_member m) ≡ some domain)
        × Keeps B (λ k. (k ≡ m) ⊎ (k ≡ domain_member m)) req r
  parse_line-address req {m} local domain rest hd no_at ne =
      let value : Bytes = local ++ (b'@' ∷ domain) in
      let (b, hb) = has_buffer B law m req (HasDomain-ne hd) in
      let (r, er, vr, kr) =
        copy_member-lem B law req m (value ++ rest) (length value) hb
          (omega (arith, length-append value rest)) in
      let (b', hb') = has_buffer B law (domain_member m) r (HasDomain-domain_ne hd) in
      let (q, eq, vq, kq) =
        copy_member-lem B law r (domain_member m) (domain ++ rest) (length domain) hb'
          (omega (arith, length-append domain rest)) in
      let assoc : value ++ rest ≡ local ++ (b'@' ∷ (domain ++ rest)) = append_assoc local _ rest in
      let len : length value ≡ length local + suc (length domain) = length-append local _ in
      (
        q,
        parse_line-split B law req r m value rest (HasDomain-HasLine hd)
              (append-ne-nil local domain) er
            ∙ rw (assoc, len)
                (parse_domain-address B r (domain_member m) (prefix m) local domain rest
                  (HasDomain-domain_ne hd) no_at ne)
            ∙ eq,
        mbrbyid-congr B m q r (kq m (domain_member-ne hd)) ∙ vr ∙ ap some (take-append value rest),
        vq ∙ ap some (take-append domain rest),
        λ k out. kq k (λ e. out (inr e)) ∙ kr k (λ e. out (inl e)),
      )
