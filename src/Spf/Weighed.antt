-- ===== src/Spf/Weighed.antt =====
-- What the SPF dictionary reports (src/dict_spf.c), against the bounds of its weights.
use valiant.Prelude.{ℕ, ◌≡◌, true, false, Option, none, some, List, [], ◌∷◌, Bytes, ◌⊎◌, ◌≢◌}
use valiant.Prelude.Floats.{Floats}
use valiant.Results.{Result, update}
use valiant.Request.{Member, Request, mbrbyid}
use valiant.Request.Buffer.{Buffers}
use valiant.Spf.{
  Spf, success, no_memory, SpfCalls, SpfError, nomem, badrequest, Checked, max_diff, min_diff,
  weight_of,
}

-- the entries of an option
option_list : {A : Type 0} → Option A → List A
option_list none = []
option_list (some x) = x ∷ []

-- A weight lies between the bounds of the dictionary.
abbrev pub Between : {F : Floats} → Spf F → F.Float → Type 0
Between {F = F} d w = (F.less (max_diff d) w ≡ false) × (F.less w (min_diff d) ≡ false)

-- The strings of the request that libspf2 is asked about.
pub record Asks (B : Buffers) (req : Request B.Buf) (a h s : Bytes) : Type 0 where
  pub address : mbrbyid B req Member.client_address ≡ some a
  pub helo : mbrbyid B req Member.helo_name ≡ some h
  pub sender : mbrbyid B req Member.sender ≡ some s

-- The first of the calls that fails, with the error that is set for it.
pub data Fails (c : SpfCalls) (a h s : Bytes) : SpfError → Type 0 where
  fails_new : c.request_new ≡ false → Fails c a h s nomem
  fails_ipv4 : c.request_new ≡ true → c.set_ipv4_str a ≢ success → Fails c a h s badrequest
  fails_helo :
      c.request_new ≡ true
      → c.set_ipv4_str a ≡ success
      → c.set_helo_dom h ≢ success
      → Fails c a h s nomem
  fails_env :
      c.request_new ≡ true
      → c.set_ipv4_str a ≡ success
      → c.set_helo_dom h ≡ success
      → c.set_env_from s ≢ success
      → Fails c a h s nomem
  fails_query :
      c.request_new ≡ true
      → c.set_ipv4_str a ≡ success
      → c.set_helo_dom h ≡ success
      → c.set_env_from s ≡ success
      → c.query_mailfrom a h s ≡ no_memory
      → Fails c a h s nomem

-- All calls before the result is known succeed, or the query fails for another reason than memory.
pub record Responds (c : SpfCalls) (a h s : Bytes) : Type 0 where
  pub new : c.request_new ≡ true
  pub ipv4 : c.set_ipv4_str a ≡ success
  pub helo_dom : c.set_helo_dom h ≡ success
  pub env_from : c.set_env_from s ≡ success
  pub query_ends : c.query_mailfrom a h s ≢ no_memory

-- A member of the request that the check needs is missing.
abbrev pub Lacks : (B : Buffers) → Request B.Buf → Type 0
Lacks B req =
    (mbrbyid B req Member.client_address ≡ none)
    ⊎ ((mbrbyid B req Member.helo_name ≡ none) ⊎ (mbrbyid B req Member.sender ≡ none))

-- What a check comes to: nothing, where a member is missing; an error, where a call fails; the weight
-- of the result; or the end of the program, where the result has none.
pub data Reports {F : Floats} (B : Buffers) (d : Spf F) (c : SpfCalls) (req : Request B.Buf)
    (res : Result F) (pos : ℕ) : Option (Checked F) → Type 0 where
  missing :
      Lacks B req
      → Reports B d c req res pos
          (some (record { res = res; error = none; requests = 0; responses = 0 }))
  failed :
      (a h s : Bytes) (e : SpfError)
      → Asks B req a h s
      → Fails c a h s e
      → Reports B d c req res pos
          (some (record { res = res; error = some e; requests = 0; responses = 0 }))
  weighed :
      (a h s : Bytes) (w : F.Float)
      → Asks B req a h s
      → Responds c a h s
      → weight_of d (c.response_result a h s) ≡ some w
      → Between d w
      → Reports B d c req res pos
          (some (record { res = update F res pos w; error = none; requests = 1; responses = 0 }))
  ends :
      (a h s : Bytes)
      → Asks B req a h s
      → Responds c a h s
      → weight_of d (c.response_result a h s) ≡ none
      → Reports B d c req res pos none
