-- ===== src/Request/Line.antt =====
-- One line of the policy protocol: the copies that `vt_request_parse_line` makes, step by step.
use valiant.Prelude.{
  ℕ, suc, ◌+◌, ◌-◌, ◌≤◌, ◌≡◌, ◌≢◌, refl, ap, ◌∙◌, some, [], ◌∷◌, ◌++◌, arith, Bytes, codes, strncmp,
  length, take, drop, ltb, ◌==◌, if◌then◌else◌, char_at, drop-append, All, ◌&&◌,
}
use native.Mathlib.Nat.{suc-add}
use valiant.Request.{
  Member, Request, get_member, set_member, line_member, domain_member, at_steps, copy_member,
  parse_domain, parse_line, mbrbyid,
}
use valiant.Request.Buffer.{Buffers, StoresCopies}

-- What stands before the value in the line that sets a member.
abbrev pub prefix : Member → Bytes
prefix Member.helo_name = codes "helo_name="
prefix Member.sender = codes "sender="
prefix Member.recipient = codes "recipient="
prefix Member.client_address = codes "client_address="
prefix Member.client_name = codes "client_name="
prefix Member.rev_client_name = codes "reverse_client_name="
prefix _ = []

-- The members that a line sets by their name.
abbrev pub HasLine : Member → Type 0
HasLine m = prefix m ≢ []

pub line_member-prefix :
    (m : Member) (value rest : Bytes)
    → HasLine m
    → value ≢ []
    → line_member (prefix m ++ (value ++ rest)) (length (prefix m) + length value)
      ≡ some (m, length (prefix m))
unfolding line_member strncmp
line_member-prefix Member.none_member value rest h v = absurd (h refl)
line_member-prefix Member.sender_domain value rest h v = absurd (h refl)
line_member-prefix Member.recipient_domain value rest h v = absurd (h refl)
line_member-prefix _ [] rest h v = absurd (v refl)
line_member-prefix _ (x ∷ value) rest h v = ground arith

-- The second copy of an address line goes to a member.
pub data HasDomain : Member → Type 0 where
  sender_has : HasDomain Member.sender
  recipient_has : HasDomain Member.recipient

pub HasDomain-HasLine : {m : Member} → HasDomain m → HasLine m
HasDomain-HasLine sender_has e = cc
HasDomain-HasLine recipient_has e = cc

pub HasDomain-ne : {m : Member} → HasDomain m → m ≢ Member.none_member
HasDomain-ne sender_has e = cc
HasDomain-ne recipient_has e = cc

pub HasDomain-domain_ne : {m : Member} → HasDomain m → domain_member m ≢ Member.none_member
unfolding domain_member
HasDomain-domain_ne sender_has e = cc
HasDomain-domain_ne recipient_has e = cc

pub domain_member-ne : {m : Member} → HasDomain m → m ≢ domain_member m
unfolding domain_member
domain_member-ne sender_has e = cc
domain_member-ne recipient_has e = cc

module _ (B : Buffers) where
  -- All members but those that `P` holds of are as they were.
  abbrev pub Keeps : (Member → Type 0) → Request B.Buf → Request B.Buf → Type 0
  Keeps P old new = (k : Member) → ¬ P k → get_member k new ≡ get_member k old

  get_member-set_ne :
      (m k : Member) (b : B.Buf) (req : Request B.Buf)
      → ¬ (k ≡ m)
      → get_member k (set_member m b req) ≡ get_member k req
  unfolding get_member set_member
  get_member-set_ne Member.none_member k b req h = refl
  get_member-set_ne _ k b req h = ground arith

  mbrbyid_of_get :
      (m : Member) (b : B.Buf) (req : Request B.Buf)
      → get_member m req ≡ some b
      → mbrbyid B req m ≡ B.str b
  unfolding get_member mbrbyid
  mbrbyid_of_get Member.none_member b req h = cc
  mbrbyid_of_get _ b req h = ground arith

  pub mbrbyid-congr :
      (m : Member) (q r : Request B.Buf)
      → get_member m q ≡ get_member m r
      → mbrbyid B q m ≡ mbrbyid B r m
  unfolding get_member mbrbyid
  mbrbyid-congr Member.none_member q r h = refl
  mbrbyid-congr _ q r h = ground arith

  pub parse_domain-lem :
      (req : Request B.Buf) (d : Member) (str : Bytes) (pos len : ℕ)
      → d ≢ Member.none_member
      → parse_domain B req d str pos len ≡ (
          let pos' = pos + at_steps (drop pos str) (len - pos) in
          if char_at str pos' == b'@' && ltb (suc pos') len
          then copy_member B req d (drop (suc pos') str) (len - suc pos')
          else some req)
  unfolding parse_domain
  parse_domain-lem req Member.none_member str pos len h = absurd (h refl)
  parse_domain-lem req _ str pos len h = refl

pub at_steps-local :
    (w rest : Bytes) (k : ℕ)
    → All (λ c. c ≢ b'@') w
    → at_steps (w ++ (b'@' ∷ rest)) (length w + suc k) ≡ length w
unfolding at_steps
at_steps-local [] rest k h = ground arith
at_steps-local (c ∷ w) rest k h = ground (arith, at_steps-local w rest k h.1)

pub at_steps-none :
    (w rest : Bytes) → All (λ c. c ≢ b'@') w → at_steps (w ++ rest) (length w) ≡ length w
unfolding at_steps
at_steps-none [] [] h = refl
at_steps-none [] (c ∷ rest) h = refl
at_steps-none (c ∷ w) rest h = ground (arith, at_steps-none w rest h.1)

pub char_at-append : (w rest : Bytes) (i : ℕ) → char_at (w ++ rest) (length w + i) ≡ char_at rest i
char_at-append [] rest i = ap (char_at rest) (omega arith)
char_at-append (c ∷ w) rest i = rw suc-add (char_at-append w rest i)

module _ (B : Buffers) (law : StoresCopies B) where
  get_member-set_self :
      (m : Member) (b c : B.Buf) (req : Request B.Buf)
      → get_member m req ≡ some b
      → get_member m (set_member m c req) ≡ some c
  unfolding get_member set_member
  get_member-set_self Member.none_member b c req h = cc
  get_member-set_self _ b c req h = refl

  pub copy_member-lem :
      (req : Request B.Buf) (m : Member) (s : Bytes) (n : ℕ) {b : B.Buf}
      → get_member m req ≡ some b
      → n ≤ length s
      → (r : Request B.Buf) × (copy_member B req m s n ≡ some r)
        × (mbrbyid B r m ≡ some (take n s))
        × Keeps B (λ k. k ≡ m) req r
  unfolding copy_member
  copy_member-lem req m s n {b} hb hn =
      let (c, e, t) = law.copies b s n hn in
      (
        set_member m c req,
        ground arith,
        mbrbyid_of_get B m c (set_member m c req) (get_member-set_self m b c req hb) ∙ t,
        λ k ne. get_member-set_ne B m k c req ne,
      )

  -- where a member is present
  pub has_buffer :
      (m : Member) (req : Request B.Buf)
      → m ≢ Member.none_member
      → (b : B.Buf) × (get_member m req ≡ some b)
  unfolding get_member
  has_buffer Member.none_member req h = absurd (h refl)
  has_buffer _ req h = (_, refl)

  -- `parse_line` once the name is recognised
  pub parse_line-split :
      (req r : Request B.Buf) (m : Member) (value rest : Bytes)
      → HasLine m
      → value ≢ []
      → copy_member B req m (value ++ rest) (length value) ≡ some r
      → let p = length (prefix m) in
        parse_line B req (prefix m ++ (value ++ rest)) (p + length value)
        ≡ parse_domain B r (domain_member m) (prefix m ++ (value ++ rest)) p (p + length value)
  unfolding parse_line
  parse_line-split req r m value rest h v e =
      let p = length (prefix m) in
      let shorter : p + length value - p ≡ length value = omega arith in
      rw (line_member-prefix m value rest h v, parse_line)
        (rw (drop-append (prefix m) (value ++ rest), shorter) (rw (e, parse_line)))
