-- ===== src/Config/Access.antt =====
-- The functions of src/config.c for each type of value, over `vt_config_getn_cmn`,
-- `vt_config_setn_cmn` and `vt_config_unsetn_cmn`.
use valiant.Prelude.{ℕ, Bool, true, false, none, some, if◌then◌else◌, Bytes, length}
use valiant.Prelude.Int.{ℤ}
use valiant.Config.Types.{
  Outcome, ok, err, fault, ◌>>=◌, ◌>>◌, deref, entry, Inst, inst_none, Value, bln, lng, dbl, str,
  ValueType, bool_type, int_type, float_type, str_type, same_value_type, Opt, opt_vals,
}
use valiant.Config.Options.{getn_cmn, setn_cmn, unsetn_cmn}

-- the flags of the search: set, prepend and append are off
unfoldable pub inst_search : Inst → Inst
inst_search inst = record inst { set = false; prepend = false; append = false }

-- the flags of the setters: set is on and compare is off
unfoldable pub inst_set : Inst → Inst
inst_set inst = record inst { set = true; compare = false }

-- `opt->data.opt.type == type`, which is asserted
unfoldable pub expect_type : {Double : Type 0} → Opt Double → ValueType → Outcome (Unit {0})
expect_type opt type = if same_value_type opt.type type then ok tt else fault

module _ {Double : Type 0} where
  -- the member `bln` of the union: another one is not read
  unfoldable pub read_bln : Value Double → Outcome Bool
  read_bln (bln v) = ok v
  read_bln _ = fault

  -- the member `lng` of the union: another one is not read
  unfoldable pub read_lng : Value Double → Outcome ℤ
  read_lng (lng v) = ok v
  read_lng _ = fault

  -- the member `dbl` of the union: another one is not read
  unfoldable pub read_dbl : Value Double → Outcome Double
  read_dbl (dbl v) = ok v
  read_dbl _ = fault

  -- the member `str` of the union: another one is not read
  unfoldable pub read_str : Value Double → Outcome Bytes
  read_str (str v) = ok v
  read_str _ = fault

module _ {Double : Type 0} (same : Value Double → Value Double → Bool) where
  -- `vals[pos]`
  unfoldable pub getn : Opt Double → ValueType → ℤ → Outcome (Value Double)
  unfolding expect_type getn_cmn entry
  getn opt type idx = do
    expect_type opt type
    at ← getn_cmn same opt none idx inst_none
    deref (entry (opt_vals opt.values) at)

  -- `vt_config_getnbool`, `vt_config_getbooln`, `vt_config_setnbool`, `vt_config_unsetnbool`
  unfoldable pub getnbool : Opt Double → ℤ → Outcome Bool
  unfolding getn read_bln
  getnbool opt idx = do v ← getn opt bool_type idx; read_bln v

  unfoldable pub getbooln : Opt Double → Bool → ℤ → Inst → Outcome ℕ
  unfolding expect_type getn_cmn inst_search
  getbooln opt v idx inst = do
    expect_type opt bool_type
    getn_cmn same opt (some (bln v)) idx (inst_search inst)

  unfoldable pub setnbool :
      Opt Double → Bool → ℤ → Inst → (memory : Bool) → Outcome (Opt Double × ℕ)
  unfolding expect_type setn_cmn inst_set
  setnbool opt v idx inst memory = do
    expect_type opt bool_type
    setn_cmn same opt (some (bln v)) idx (inst_set inst) memory

  unfoldable pub unsetnbool : Opt Double → ℤ → Outcome (Opt Double × ℕ)
  unfolding expect_type unsetn_cmn
  unsetnbool opt idx = do expect_type opt bool_type; unsetn_cmn same opt none idx inst_none

  -- `vt_config_getnint`, `vt_config_getintn`, `vt_config_setnint`, `vt_config_unsetnint`
  unfoldable pub getnint : Opt Double → ℤ → Outcome ℤ
  unfolding getn read_lng
  getnint opt idx = do v ← getn opt int_type idx; read_lng v

  unfoldable pub getintn : Opt Double → ℤ → ℤ → Inst → Outcome ℕ
  unfolding expect_type getn_cmn inst_search
  getintn opt v idx inst = do
    expect_type opt int_type
    getn_cmn same opt (some (lng v)) idx (inst_search inst)

  unfoldable pub setnint : Opt Double → ℤ → ℤ → Inst → (memory : Bool) → Outcome (Opt Double × ℕ)
  unfolding expect_type setn_cmn inst_set
  setnint opt v idx inst memory = do
    expect_type opt int_type
    setn_cmn same opt (some (lng v)) idx (inst_set inst) memory

  unfoldable pub unsetnint : Opt Double → ℤ → Outcome (Opt Double × ℕ)
  unfolding expect_type unsetn_cmn
  unsetnint opt idx = do expect_type opt int_type; unsetn_cmn same opt none idx inst_none

  -- `vt_config_getnfloat`, `vt_config_getfloatn`, `vt_config_setnfloat`, `vt_config_unsetnfloat`
  unfoldable pub getnfloat : Opt Double → ℤ → Outcome Double
  unfolding getn read_dbl
  getnfloat opt idx = do v ← getn opt float_type idx; read_dbl v

  unfoldable pub getfloatn : Opt Double → Double → ℤ → Inst → Outcome ℕ
  unfolding expect_type getn_cmn inst_search
  getfloatn opt v idx inst = do
    expect_type opt float_type
    getn_cmn same opt (some (dbl v)) idx (inst_search inst)

  unfoldable pub setnfloat :
      Opt Double → Double → ℤ → Inst → (memory : Bool) → Outcome (Opt Double × ℕ)
  unfolding expect_type setn_cmn inst_set
  setnfloat opt v idx inst memory = do
    expect_type opt float_type
    setn_cmn same opt (some (dbl v)) idx (inst_set inst) memory

  unfoldable pub unsetnfloat : Opt Double → ℤ → Outcome (Opt Double × ℕ)
  unfolding expect_type unsetn_cmn
  unsetnfloat opt idx = do expect_type opt float_type; unsetn_cmn same opt none idx inst_none

  -- `vt_config_getnstr`, `vt_config_getstrn`, `vt_config_setnstr`, `vt_config_unsetnstr`
  unfoldable pub getnstr : Opt Double → ℤ → Outcome Bytes
  unfolding getn read_str
  getnstr opt idx = do v ← getn opt str_type idx; read_str v

  unfoldable pub getstrn : Opt Double → Bytes → ℤ → Inst → Outcome ℕ
  unfolding expect_type getn_cmn inst_search
  getstrn opt v idx inst = do
    expect_type opt str_type
    getn_cmn same opt (some (str v)) idx (inst_search inst)

  unfoldable pub setnstr :
      Opt Double → Bytes → ℤ → Inst → (memory : Bool) → Outcome (Opt Double × ℕ)
  unfolding expect_type setn_cmn inst_set
  setnstr opt v idx inst memory = do
    expect_type opt str_type
    setn_cmn same opt (some (str v)) idx (inst_set inst) memory

  unfoldable pub unsetnstr : Opt Double → ℤ → Outcome (Opt Double × ℕ)
  unfolding expect_type unsetn_cmn
  unsetnstr opt idx = do expect_type opt str_type; unsetn_cmn same opt none idx inst_none

  -- `vt_config_getnstr_dup`
  unfoldable pub getnstr_dup : Opt Double → ℤ → (memory : Bool) → Outcome Bytes
  unfolding getnstr
  getnstr_dup opt idx memory = do s ← getnstr opt idx; if memory then ok s else err

  -- `vt_config_getnvals`
  unfoldable pub getnvals : Opt Double → ℕ
  getnvals opt = length (opt_vals opt.values)
