-- ===== src/Request/Tests.antt =====
-- Runs of the request parser and look-ups of attributes, and instances of their theorems.
use valiant.Prelude.{
  ℕ, ◌≡◌, refl, ◌⊎◌, Option, none, some, List, [], ◌∷◌, arith, Bytes, strncmp, replicate, All,
  false, zero, suc, codes,
}
use valiant.Request.{
  Member, Request, line_member, copy_member, get_member, set_member, parse_domain, at_steps,
  mbrbyid, parse_line, domain_member,
}
use valiant.Request.Address.{parse_line-address}
use valiant.Request.Buffer.{plain, plain-StoresCopies}
use valiant.Request.Line.{Keeps, sender_has}
use valiant.Request.Lines.{parse_each, text}
use valiant.Request.Read.{got, parse, is_term}
use valiant.Request.Stale.{parse_line-empty}
use valiant.Request.Whole.{reads, parse-eq-parse_each, parse-full_buffer}

abbrev fresh : Request (Option Bytes)
fresh = record {
  helo_name_buf = none;
  sender_buf = none;
  sender_domain_buf = none;
  recipient_buf = none;
  recipient_domain_buf = none;
  client_address_buf = none;
  client_name_buf = none;
  rev_client_name_buf = none;
}

-- what an earlier request left
abbrev used : Request (Option Bytes)
used = record fresh { sender_buf = some (codes "a@b.nl"); sender_domain_buf = some (codes "b.nl") }

parse_line-address_example :
    (r : Request (Option Bytes)) × (parse_line plain fresh (codes "sender=me@x.nl\n") 14 ≡ some r)
    × (mbrbyid plain r Member.sender ≡ some (codes "me@x.nl"))
    × (mbrbyid plain r (domain_member Member.sender) ≡ some (codes "x.nl"))
    × Keeps plain (λ k. (k ≡ Member.sender) ⊎ (k ≡ domain_member Member.sender)) fresh r
parse_line-address_example =
    parse_line-address plain plain-StoresCopies fresh (codes "me") (codes "x.nl") (codes "\n")
      sender_has (omega arith) (λ e. cc)

parse_line-empty_example : parse_line plain used (codes "sender=\n") 7 ≡ some used
parse_line-empty_example = parse_line-empty plain used Member.sender (codes "\n")

abbrev two_lines : List Bytes
two_lines = codes "sender=me@x.nl" ∷ codes "helo_name=mx" ∷ []

parse-eq-parse_each_example :
    parse plain
      (reads (some (codes "sender=me") ∷ none ∷ []) (got (codes "@x.nl\nhelo_name=mx\n") ∷ []))
      fresh
    ≡ parse_each plain fresh two_lines
unfolding is_term
parse-eq-parse_each_example =
    parse-eq-parse_each plain fresh [] (some (codes "sender=me") ∷ none ∷ [])
      (codes "@x.nl\nhelo_name=mx\n") two_lines (λ e. cc, (λ e. cc, tt)) (ground arith) (λ e. cc)
      refl (omega arith) (ground arith)

parsed :
    (r : Request (Option Bytes)) × (parse_each plain fresh two_lines ≡ some r)
    × (mbrbyid plain r Member.helo_name ≡ some (codes "mx"))
unfolding parse_line mbrbyid line_member strncmp copy_member get_member parse_domain domain_member
    at_steps set_member
parsed = (_, refl, refl)

-- a line that leaves just the byte for its newline
abbrev long_line : Bytes
long_line = replicate 1023 b'x'

All-replicate : (n : ℕ) → All (λ c. is_term c ≡ false) (replicate n b'x')
unfolding is_term
All-replicate zero = tt
All-replicate (suc n) = (refl, All-replicate n)

parse-full_buffer_example : parse plain (got (text (long_line ∷ [])) ∷ []) fresh ≡ none
parse-full_buffer_example =
    parse-full_buffer plain fresh [] (long_line ∷ []) refl ((λ e. cc, All-replicate 1023), tt)
