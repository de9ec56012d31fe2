-- ===== src/Request.antt =====
-- The policy request (src/req.c): its attributes, the parser of one line, and the look-up of an
-- attribute by identifier and by name.
pub mod Buffer
pub mod Members
pub mod Line
pub mod Address
pub mod Stale
pub mod Read
pub mod Lines
pub mod Whole
mod Tests
use valiant.Prelude.{
  ℕ, zero, suc, ◌+◌, ◌-◌, Bool, true, false, ◌&&◌, Option, none, some, List, [], ◌∷◌, ◌==◌, ltb,
  if◌then◌else◌, Bytes, codes, strncmp, drop, char_at,
}
use valiant.Request.Buffer.{Buffers}

-- `enum _vt_request_member`
pub data Member : Type 0 where
  none_member : Member
  helo_name sender sender_domain recipient recipient_domain : Member
  client_address client_name rev_client_name : Member

-- `struct _vt_request`, over the type of its buffers
pub record Request (Buf : Type 0) : Type 0 where
  pub helo_name_buf : Buf
  pub sender_buf : Buf
  pub sender_domain_buf : Buf
  pub recipient_buf : Buf
  pub recipient_domain_buf : Buf
  pub client_address_buf : Buf
  pub client_name_buf : Buf
  pub rev_client_name_buf : Buf

-- The buffer that a pointer `mbr` into the request reads, and the request after a write through it.
unfoldable pub get_member : {Buf : Type 0} → Member → Request Buf → Option Buf
get_member Member.none_member r = none
get_member Member.helo_name r = some r.helo_name_buf
get_member Member.sender r = some r.sender_buf
get_member Member.sender_domain r = some r.sender_domain_buf
get_member Member.recipient r = some r.recipient_buf
get_member Member.recipient_domain r = some r.recipient_domain_buf
get_member Member.client_address r = some r.client_address_buf
get_member Member.client_name r = some r.client_name_buf
get_member Member.rev_client_name r = some r.rev_client_name_buf

unfoldable pub set_member : {Buf : Type 0} → Member → Buf → Request Buf → Request Buf
set_member Member.none_member b r = r
set_member Member.helo_name b r = record r { helo_name_buf = b }
set_member Member.sender b r = record r { sender_buf = b }
set_member Member.sender_domain b r = record r { sender_domain_buf = b }
set_member Member.recipient b r = record r { recipient_buf = b }
set_member Member.recipient_domain b r = record r { recipient_domain_buf = b }
set_member Member.client_address b r = record r { client_address_buf = b }
set_member Member.client_name b r = record r { client_name_buf = b }
set_member Member.rev_client_name b r = record r { rev_client_name_buf = b }

-- The member that a line sets, and the position of its value: the chain of tests of
-- `vt_request_parse_line`. `str` is the buffer from the line on, `len` the length of the line.
unfoldable pub line_member : Bytes → ℕ → Option (Member × ℕ)
line_member str len =
    if ltb 10 len && strncmp str (codes "helo_name=") 10
    then some (Member.helo_name, 10)
    else if ltb 7 len && strncmp str (codes "sender=") 7
    then some (Member.sender, 7)
    else if ltb 10 len && strncmp str (codes "recipient=") 10
    then some (Member.recipient, 10)
    else if ltb 15 len && strncmp str (codes "client_address=") 15
    then some (Member.client_address, 15)
    else if ltb 12 len && strncmp str (codes "client_name=") 12
    then some (Member.client_name, 12)
    else if ltb 20 len && strncmp str (codes "reverse_client_name=") 20
    then some (Member.rev_client_name, 20)
    else none

-- The second `mbr` of `vt_request_parse_line`: where the domain of an address goes.
unfoldable pub domain_member : Member → Member
domain_member Member.sender = Member.sender_domain
domain_member Member.recipient = Member.recipient_domain
domain_member _ = Member.none_member

-- `for (; pos < len && *(str+pos) != '@'; pos++);` on the bytes from `pos` on: the steps it makes.
unfoldable pub at_steps : Bytes → ℕ → ℕ
at_steps [] left = 0
at_steps (c ∷ cs) zero = 0
at_steps (c ∷ cs) (suc left) = let next = suc (at_steps cs left) in if c == b'@' then 0 else next

module _ (B : Buffers) where
  open B use {Buf, ncpy, str as buf_str}

  -- `vt_buf_ncpy (mbr, s, n)`; `none` where the caller returns NULL
  unfoldable pub copy_member : Request Buf → Member → Bytes → ℕ → Option (Request Buf)
  copy_member req m s n = elim (get_member m req) [
    | none ↦ some req
    | some b ↦ elim (ncpy b s n) [ none ↦ none | some c ↦ some (set_member m c req) ]
  ]

  -- the part of `vt_request_parse_line` behind the copy of the value
  unfoldable pub parse_domain : Request Buf → Member → Bytes → ℕ → ℕ → Option (Request Buf)
  parse_domain req Member.none_member str pos len = some req
  parse_domain req mbr str pos len =
      let pos' = pos + at_steps (drop pos str) (len - pos) in
      if char_at str pos' == b'@' && ltb (suc pos') len
      then copy_member req mbr (drop (suc pos') str) (len - suc pos')
      else some req

  unfoldable pub parse_line : Request Buf → Bytes → ℕ → Option (Request Buf)
  parse_line req str len = elim (line_member str len) [
    | none ↦ some req
    | some (m, pos) ↦ elim (copy_member req m (drop pos str) (len - pos)) [
      | none ↦ none
      | some req' ↦ parse_domain req' (domain_member m) str pos len
    ]
  ]

  -- `vt_request_mbrbyid`
  unfoldable pub mbrbyid : Request Buf → Member → Option Bytes
  mbrbyid req Member.none_member = none
  mbrbyid req Member.helo_name = buf_str req.helo_name_buf
  mbrbyid req Member.sender = buf_str req.sender_buf
  mbrbyid req Member.sender_domain = buf_str req.sender_domain_buf
  mbrbyid req Member.recipient = buf_str req.recipient_buf
  mbrbyid req Member.recipient_domain = buf_str req.recipient_domain_buf
  mbrbyid req Member.client_address = buf_str req.client_address_buf
  mbrbyid req Member.client_name = buf_str req.client_name_buf
  mbrbyid req Member.rev_client_name = buf_str req.rev_client_name_buf

  -- `vt_request_mbrbyname`: the tests compare as many bytes as the literal has.
  unfoldable pub mbrbyname : Request Buf → Bytes → Option Bytes
  mbrbyname req str =
      if strncmp str (codes "helo_name") 9
      then buf_str req.helo_name_buf
      else if strncmp str (codes "sender") 6
      then buf_str req.sender_buf
      else if strncmp str (codes "sender_domain") 13
      then buf_str req.sender_domain_buf
      else if strncmp str (codes "recipient") 9
      then buf_str req.recipient_buf
      else if strncmp str (codes "recipient_domain") 16
      then buf_str req.recipient_domain_buf
      else if strncmp str (codes "client_address") 14
      then buf_str req.client_address_buf
      else if strncmp str (codes "client_name") 11
      then buf_str req.client_name_buf
      else if strncmp str (codes "reverse_client_name") 19
      then buf_str req.rev_client_name_buf
      else none

  -- `vt_request_mbrbynamen`
  unfoldable pub mbrbynamen : Request Buf → Bytes → ℕ → Option Bytes
  mbrbynamen req str len =
      if len == 9 && strncmp (codes "helo_name") str len
      then buf_str req.helo_name_buf
      else if len == 6 && strncmp (codes "sender") str len
      then buf_str req.sender_buf
      else if len == 13 && strncmp (codes "sender_domain") str len
      then buf_str req.sender_domain_buf
      else if len == 9 && strncmp (codes "recipient") str len
      then buf_str req.recipient_buf
      else if len == 16 && strncmp (codes "recipient_domain") str len
      then buf_str req.recipient_domain_buf
      else if len == 14 && strncmp (codes "client_address") str len
      then buf_str req.client_address_buf
      else if len == 11 && strncmp (codes "client_name") str len
      then buf_str req.client_name_buf
      else if len == 19 && strncmp (codes "reverse_client_name") str len
      then buf_str req.rev_client_name_buf
      else none

-- `vt_request_mbrtoid`; `none` is the null pointer.
unfoldable pub mbrtoid : Option Bytes → Member
mbrtoid none = Member.none_member
mbrtoid (some mbr) =
    if strncmp mbr (codes "helo_name") 9
    then Member.helo_name
    else if strncmp mbr (codes "sender") 6
    then Member.sender
    else if strncmp mbr (codes "sender_domain") 13
    then Member.sender_domain
    else if strncmp mbr (codes "recipient") 9
    then Member.recipient
    else if strncmp mbr (codes "recipient_domain") 16
    then Member.recipient_domain
    else if strncmp mbr (codes "client_address") 14
    then Member.client_address
    else if strncmp mbr (codes "client_name") 11
    then Member.client_name
    else if strncmp mbr (codes "reverse_client_name") 19
    then Member.rev_client_name
    else Member.none_member
