-- ===== src/Request/Members.antt =====
-- Looking attributes up: `vt_request_mbrtoid`, `vt_request_mbrbyid`, `vt_request_mbrbyname` and
-- `vt_request_mbrbynamen` against the table of the attributes' names.
use valiant.Prelude.{
  ◌≡◌, ◌≢◌, refl, true, Option, none, some, [], ◌∷◌, ◌++◌, arith, Bytes, codes, strncmp, length,
}
use valiant.Request.{Member, Request, mbrbyid, mbrbyname, mbrbynamen, mbrtoid}
use valiant.Request.Buffer.{Buffers}

-- The documented name of each member.
abbrev pub member_name : Member → Bytes
member_name Member.none_member = []
member_name Member.helo_name = codes "helo_name"
member_name Member.sender = codes "sender"
member_name Member.sender_domain = codes "sender_domain"
member_name Member.recipient = codes "recipient"
member_name Member.recipient_domain = codes "recipient_domain"
member_name Member.client_address = codes "client_address"
member_name Member.client_name = codes "client_name"
member_name Member.rev_client_name = codes "reverse_client_name"

-- The member whose name is the first in the chain of tests to be a prefix of this one's.
abbrev pub shadow : Member → Member
shadow Member.sender_domain = Member.sender
shadow Member.recipient_domain = Member.recipient
shadow m = m

-- `vt_request_mbrbynamen` finds by its name, whatever follows the name in the text, just what
-- `vt_request_mbrbyid` finds by the identifier.
mbrbynamen-eq-mbrbyid :
    (B : Buffers) (req : Request B.Buf) (m : Member) (rest : Bytes)
    → m ≢ Member.none_member
    → mbrbynamen B req (member_name m ++ rest) (length (member_name m)) ≡ mbrbyid B req m
unfolding mbrbynamen mbrbyid strncmp
mbrbynamen-eq-mbrbyid B req Member.none_member rest h = absurd (h refl)
mbrbynamen-eq-mbrbyid B req _ rest h = refl

-- Both look-ups by a name of unknown length answer for a member's name, whatever follows it, as for
-- the member that comes first in the chain: `sender` for `sender_domain`, `recipient` for
-- `recipient_domain`, itself for every other.
pub mbrtoid-shadow :
    (B : Buffers) (req : Request B.Buf) (m : Member) (rest : Bytes)
    → m ≢ Member.none_member
    → (mbrtoid (some (member_name m ++ rest)) ≡ shadow m)
      × (mbrbyname B req (member_name m ++ rest) ≡ mbrbyid B req (shadow m))
unfolding mbrtoid mbrbyname mbrbyid strncmp
mbrtoid-shadow B req Member.none_member rest h = absurd (h refl)
mbrtoid-shadow B req _ rest h = (refl, refl)

strncmp-prefix :
    (w v s : Bytes) → strncmp s (w ++ v) (length (w ++ v)) ≡ true → strncmp s w (length w) ≡ true
unfolding strncmp
strncmp-prefix [] v s h = refl
strncmp-prefix (x ∷ w) v [] h = h
strncmp-prefix (x ∷ w) v (c ∷ s) h = ground (arith, strncmp-prefix w v s)

-- No text at all is taken for the name of a domain: `vt_request_mbrtoid` never returns
-- VT_REQUEST_MEMBER_SENDER_DOMAIN nor VT_REQUEST_MEMBER_RECIPIENT_DOMAIN.
mbrtoid-ne-domain :
    (s : Option Bytes) → (mbrtoid s ≢ Member.sender_domain) × (mbrtoid s ≢ Member.recipient_domain)
unfolding mbrtoid
mbrtoid-ne-domain none = (λ e. cc, λ e. cc)
mbrtoid-ne-domain (some s) =
    let p = strncmp-prefix (codes "sender") (codes "_domain") s in
    let q = strncmp-prefix (codes "recipient") (codes "_domain") s in ground (arith, p, q)
