-- ===== src/Spf.antt =====
-- The dictionary that asks for the SPF result of the sender (src/dict_spf.c). libspf2 is a parameter:
-- what its calls return for the strings of the request.
pub mod Weighed
mod Tests
use valiant.Prelude.{Bool, true, false, Option, none, some, List, [], ◌∷◌, if◌then◌else◌, Bytes, ℕ}
use valiant.Prelude.Floats.{Floats}
use valiant.Results.{Result, update}
use valiant.Request.{Member, Request, mbrbyid}
use valiant.Request.Buffer.{Buffers}

-- `struct _vt_dict_spf`, without the server
pub record Spf (F : Floats) : Type 0 where
  pub pass : F.Float
  pub fail : F.Float
  pub soft_fail : F.Float
  pub neutral : F.Float
  pub none_weight : F.Float
  pub perm_error : F.Float
  pub temp_error : F.Float

-- The section of a result, where there is one, with the weight that the user set in it.
pub data RsltSec (F : Floats) : Type 0 where
  no_section : RsltSec F
  section : Option F.Float → RsltSec F

-- `SPF_errcode_t`, as far as the code tells its values apart
pub data Errcode : Type 0 where
  success no_memory other : Errcode

-- `SPF_result_t`
pub data SpfResult : Type 0 where
  invalid pass_result fail_result softfail_result neutral_result none_result temperror_result
        permerror_result unknown :
      SpfResult

-- What the calls of libspf2 return; `responds` tells whether a response was made by the query.
pub record SpfCalls : Type 0 where
  pub request_new : Bool
  pub set_ipv4_str : Bytes → Errcode
  pub set_helo_dom : Bytes → Errcode
  pub set_env_from : Bytes → Errcode
  pub query_mailfrom : (client_address helo_name sender : Bytes) → Errcode
  pub response_result : (client_address helo_name sender : Bytes) → SpfResult

-- `vt_error_t`, as far as the check sets it
pub data SpfError : Type 0 where
  nomem badrequest : SpfError

-- What the check leaves: the results, its code, and the requests and responses that are not freed.
pub record Checked (F : Floats) : Type 0 where
  pub res : Result F
  pub error : Option SpfError
  pub requests : ℕ
  pub responses : ℕ

module _ (F : Floats) where
  -- the steps of `vt_dict_spf_max_diff`
  unfoldable pub greatest : F.Float → List F.Float → F.Float
  greatest weight [] = weight
  greatest weight (w ∷ ws) = greatest (if F.less weight w then w else weight) ws

  -- the steps of `vt_dict_spf_min_diff`
  unfoldable pub least : F.Float → List F.Float → F.Float
  least weight [] = weight
  least weight (w ∷ ws) = least (if F.less w weight then w else weight) ws

module _ {F : Floats} where
  -- a round of the loop over `rslts`; the weights are 0 before
  unfoldable pub rslt_weight : F.Float → RsltSec F → F.Float
  rslt_weight weight no_section = F.zero
  rslt_weight weight (section none) = weight
  rslt_weight weight (section (some w)) = w

  -- the weights behind the first one, in the order of both
  unfoldable pub others : Spf F → List F.Float
  others d = d.fail ∷ d.soft_fail ∷ d.neutral ∷ d.none_weight ∷ d.perm_error ∷ d.temp_error ∷ []

  -- `vt_dict_spf_max_diff`, `vt_dict_spf_min_diff`
  unfoldable pub max_diff : Spf F → F.Float
  max_diff d = greatest F d.pass (others d)

  unfoldable pub min_diff : Spf F → F.Float
  min_diff d = least F d.pass (others d)

  -- the switch over the result; `none` where the program ends
  unfoldable pub weight_of : Spf F → SpfResult → Option F.Float
  weight_of d invalid = none
  weight_of d pass_result = some d.pass
  weight_of d fail_result = some d.fail
  weight_of d softfail_result = some d.soft_fail
  weight_of d neutral_result = some d.neutral
  weight_of d none_result = some d.none_weight
  weight_of d temperror_result = some d.temp_error
  weight_of d permerror_result = some d.perm_error
  weight_of d unknown = none

  -- `failure`: what was made is freed
  unfoldable pub failure : Result F → SpfError → Checked F
  failure res e = record { res = res; error = some e; requests = 0; responses = 0 }

  -- the switch, and what follows it
  unfoldable pub respond : Spf F → Result F → ℕ → SpfResult → Option (Checked F)
  unfolding weight_of
  respond d res pos result = elim (weight_of d result) [
    | none ↦ none
    | some weight ↦
        some (record { res = update F res pos weight; error = none; requests = 1; responses = 0 })
  ]

  -- the setters and the query, where the request was made
  unfoldable pub query :
      Spf F
      → SpfCalls
      → Result F
      → ℕ
      → (client_address helo_name sender : Bytes) → Option (Checked F)
  unfolding respond failure
  query d c res pos client_address helo_name sender = elim (c.set_ipv4_str client_address) [
    | success ↦ elim (c.set_helo_dom helo_name) [
      | success ↦ elim (c.set_env_from sender) [
        | success ↦ elim (c.query_mailfrom client_address helo_name sender) [
          | no_memory ↦ some (failure res nomem)
          | _ ↦ respond d res pos (c.response_result client_address helo_name sender)
        ]
        | _ ↦ some (failure res nomem)
      ]
      | _ ↦ some (failure res nomem)
    ]
    | _ ↦ some (failure res badrequest)
  ]

-- `vt_dict_spf_create`: the weights, in the order of `rslts`
unfoldable pub create :
    {F : Floats} (weight : F.Float)
    (pass fail soft_fail neutral none_sec perm_error temp_error : RsltSec F)
    → Spf F
unfolding rslt_weight
create weight pass fail soft_fail neutral none_sec perm_error temp_error = record {
  pass = rslt_weight weight pass;
  fail = rslt_weight weight fail;
  soft_fail = rslt_weight weight soft_fail;
  neutral = rslt_weight weight neutral;
  none_weight = rslt_weight weight none_sec;
  perm_error = rslt_weight weight perm_error;
  temp_error = rslt_weight weight temp_error;
}

module _ {F : Floats} (B : Buffers) where
  -- `vt_dict_spf_check`; `none` where the program ends
  unfoldable pub check : Spf F → SpfCalls → Request B.Buf → Result F → ℕ → Option (Checked F)
  unfolding query failure
  check d c req res pos = elim (mbrbyid B req Member.client_address) [
    | none ↦ some (record { res = res; error = none; requests = 0; responses = 0 })
    | some client_address ↦ elim (mbrbyid B req Member.helo_name) [
      | none ↦ some (record { res = res; error = none; requests = 0; responses = 0 })
      | some helo_name ↦ elim (mbrbyid B req Member.sender) [
        | none ↦ some (record { res = res; error = none; requests = 0; responses = 0 })
        | some sender ↦
            if c.request_new
            then query d c res pos client_address helo_name sender
            else some (failure res nomem)
      ]
    ]
  ]
