-- ===== src/Dnsbl.antt =====
-- The dictionaries that ask a block list for the address of the client or for the domain of the sender
-- (src/dict_dnsbl.c, src/dict_rhsbl.c), and the reversed address (src/utils.c). `inet_pton`,
-- `inet_ntop` and the name server are a parameter.
pub mod Queries
mod Tests
use valiant.Prelude.{
  ℕ, zero, suc, ◌+◌, ◌*◌, ◌%◌, ◌/◌, ◌^◌, Option, none, some, List, [], ◌∷◌, ◌++◌, leb,
  if◌then◌else◌, Bytes, length,
}
use valiant.Prelude.Floats.{Floats}
use valiant.Results.{Result, update}
use valiant.Request.{Member, Request, mbrbyid}
use valiant.Request.Buffer.{Buffers}
use valiant.BackOff.{State}
use valiant.Rbl.{Weight, Herrno, check}

-- `INET_ADDRSTRLEN`, and `HOST_NAME_MAX` of Linux
abbrev pub inet_addrstrlen : ℕ
inet_addrstrlen = 16

abbrev pub host_name_max : ℕ
host_name_max = 64

-- The conversions of addresses, which are read with the first byte lowest, and the name server.
pub record Net : Type 0 where
  pub inet_pton : Bytes → Option ℕ
  pub inet_ntop : ℕ → Option Bytes
  pub dns_lookup : Bytes → Herrno × List ℕ

-- `n` rounds of the loop; the lowest 8 bits of the shifted number are 0 where the byte goes.
unfoldable pub reverse_loop : ℕ → (ipa ripa : ℕ) → ℕ
reverse_loop zero ipa ripa = ripa
reverse_loop (suc n) ipa ripa = reverse_loop n (ipa / 256) ((ripa * 256) % 2 ^ 32 + ipa % 256)

-- `reverse_inet_addr`, with a `size` of INET_ADDRSTRLEN
unfoldable pub reverse_inet_addr : Net → Bytes → Option Bytes
reverse_inet_addr n src =
    if leb inet_addrstrlen (length src)
    then none
    else elim (n.inet_pton src) [ none ↦ none | some ipa ↦ n.inet_ntop (reverse_loop 4 ipa 0) ]

module _ {F : Floats} where
  -- The name that is asked for, `name.zone`, and the check of the block list; `none` where the
  -- program ends.
  unfoldable pub ask :
      Net
      → (zone : Bytes) → List (Weight F)
      → State
      → (name : Bytes) → Result F
      → ℕ
      → (now later : ℕ) → Option (Result F × State)
  ask n zone ws s name res pos now later =
      let query = name ++ b'.' ∷ zone in
      let (herrno, addresses) = n.dns_lookup query in
      if leb host_name_max (length query)
      then none
      else check herrno addresses ws res pos s now later

module _ {F : Floats} (B : Buffers) where
  -- `vt_dict_dnsbl_check`
  unfoldable pub dnsbl_check :
      Net
      → (zone : Bytes) → List (Weight F)
      → State
      → Request B.Buf
      → Result F
      → ℕ
      → (now later : ℕ) → Option (Result F × State)
  unfolding ask
  dnsbl_check n zone ws s req res pos now later = elim (mbrbyid B req Member.client_address) [
    | none ↦ some (update F res pos F.zero, s)
    | some client_address ↦ elim (reverse_inet_addr n client_address) [
      | none ↦ none
      | some reverse ↦ ask n zone ws s reverse res pos now later
    ]
  ]

  -- `vt_dict_rhsbl_check`
  unfoldable pub rhsbl_check :
      Net
      → (zone : Bytes) → List (Weight F)
      → State
      → Request B.Buf
      → Result F
      → ℕ
      → (now later : ℕ) → Option (Result F × State)
  unfolding ask
  rhsbl_check n zone ws s req res pos now later = elim (mbrbyid B req Member.sender_domain) [
    | none ↦ some (update F res pos F.zero, s)
    | some sender_domain ↦ ask n zone ws s sender_domain res pos now later
  ]
