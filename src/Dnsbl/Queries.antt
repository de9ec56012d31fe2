-- ===== src/Dnsbl/Queries.antt =====
-- What the block lists are asked for (src/dict_dnsbl.c, src/dict_rhsbl.c, src/utils.c).
use valiant.Prelude.{
  ℕ, suc, ◌+◌, ◌*◌, ◌<◌, ◌≡◌, false, Option, none, some, List, ◌∷◌, ◌++◌, leb, if◌then◌else◌, Bytes,
  length, arith,
}
use valiant.Prelude.Floats.{Floats}
use valiant.Results.{Result}
use valiant.Request.{Member, Request, mbrbyid}
use valiant.Request.Buffer.{Buffers}
use valiant.Request.Line.{prefix, sender_has}
use valiant.Request.Address.{parse_line-address}
use valiant.Request.Buffer.{StoresCopies}
use valiant.Request.{parse_line, domain_member}
use valiant.Prelude.{All, ◌≢◌, [], length-append}
use valiant.BackOff.{State}
use valiant.Rbl.{Weight, check}
use valiant.Dnsbl.{Net, reverse_loop, reverse_inet_addr, ask, dnsbl_check, rhsbl_check}

-- The address of four bytes, the first of them lowest.
abbrev pub address : (a b c d : ℕ) → ℕ
address a b c d = a + 256 * b + 65536 * c + 16777216 * d

reverse_loop_lem :
    (a b c d : ℕ)
    → a < 256
    → b < 256
    → c < 256
    → d < 256
    → reverse_loop 4 (address a b c d) 0 ≡ address d c b a
unfolding reverse_loop
reverse_loop_lem a b c d ha hb hc hd = omega arith

reverse_inet_addr-bytes :
    (n : Net) (src reverse : Bytes) (a b c d : ℕ)
    → a < 256
    → b < 256
    → c < 256
    → d < 256
    → length src < 16
    → n.inet_pton src ≡ some (address a b c d)
    → n.inet_ntop (address d c b a) ≡ some reverse
    → reverse_inet_addr n src ≡ some reverse
unfolding reverse_inet_addr
reverse_inet_addr-bytes n src reverse a b c d ha hb hc hd len p q =
    let short : leb 16 (length src) ≡ false = ground arith in
    simp (reverse_inet_addr, short, p, reverse_loop_lem a b c d ha hb hc hd, q)

ask-fits :
    {F : Floats} (n : Net) (zone : Bytes) (ws : List (Weight F)) (s : State) (name : Bytes)
    (res : Result F) (pos now later : ℕ)
    → length name + suc (length zone) < 64
    → ask n zone ws s name res pos now later
      ≡ check
          (n.dns_lookup (name ++ b'.' ∷ zone)).0
          (n.dns_lookup (name ++ b'.' ∷ zone)).1
          ws
          res
          pos
          s
          now
          later
unfolding ask
ask-fits n zone ws s name res pos now later fits =
    let short : leb 64 (length (name ++ b'.' ∷ zone)) ≡ false =
      ground (arith, length-append name (b'.' ∷ zone)) in
    simp (ask, short)

module _ {F : Floats} (B : Buffers) (n : Net) (zone : Bytes) (ws : List (Weight F)) (s : State)
    (res : Result F) (pos now later : ℕ) where
  -- what the check makes of the answer to a query
  abbrev pub answered : (query : Bytes) → Option (Result F × State)
  answered query = check (n.dns_lookup query).0 (n.dns_lookup query).1 ws res pos s now later

  -- Where the address of the client reads as the bytes a, b, c, d, the block list is asked for the
  -- address of the bytes d, c, b, a in the zone, if the name has fewer than 64 bytes, and the check
  -- comes to what the list answers.
  pub dnsbl_check-reversed :
      (req : Request B.Buf) (src reverse : Bytes) (a b c d : ℕ)
      → a < 256
      → b < 256
      → c < 256
      → d < 256
      → mbrbyid B req Member.client_address ≡ some src
      → length src < 16
      → n.inet_pton src ≡ some (address a b c d)
      → n.inet_ntop (address d c b a) ≡ some reverse
      → length reverse + suc (length zone) < 64
      → dnsbl_check B n zone ws s req res pos now later ≡ answered (reverse ++ b'.' ∷ zone)
  unfolding dnsbl_check
  dnsbl_check-reversed req src reverse a b c d ha hb hc hd m len p q fits =
      let reversed : reverse_inet_addr n src ≡ some reverse =
        reverse_inet_addr-bytes n src reverse a b c d ha hb hc hd len p q in
      simp (dnsbl_check, m, reversed, ask-fits n zone ws s reverse res pos now later fits)

  -- A line `sender=local@domain`, with no other `@` before the first and a domain that is not empty,
  -- leaves a request for which the block list of domains is asked for the domain in the zone, where
  -- that name has fewer than 64 bytes; where it has more, the check ends the program.
  pub rhsbl_check-line :
      (law : StoresCopies B) (req : Request B.Buf) (local domain rest : Bytes)
      → All (λ c. c ≢ b'@') local
      → domain ≢ []
      → (r : Request B.Buf) × (parse_line B req
            (prefix Member.sender ++ ((local ++ (b'@' ∷ domain)) ++ rest))
            (length (prefix Member.sender) + length (local ++ (b'@' ∷ domain)))
          ≡ some r)
        × (rhsbl_check B n zone ws s r res pos now later ≡ (
            if leb 64 (length domain + suc (length zone))
            then none
            else answered (domain ++ b'.' ∷ zone)))
  unfolding rhsbl_check domain_member ask
  rhsbl_check-line law req local domain rest no_at ne =
      let (r, e, whole, dom, kept) =
        parse_line-address B law req local domain rest sender_has no_at ne in
      (r, e, simp (rhsbl_check, dom, ask, length-append domain (b'.' ∷ zone)))
