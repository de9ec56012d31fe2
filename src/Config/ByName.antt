-- ===== src/Config/ByName.antt =====
-- The values of the options of a section by name (src/config.c): `vt_config_sec_getnbool`,
-- `vt_config_sec_setnbool`, `vt_config_sec_setnopt_bool`, and the same for the other types.
use valiant.Prelude.{ℕ, Bool, some, Bytes, set}
use valiant.Prelude.Int.{ℤ, pos}
use valiant.Config.Types.{
  Outcome, ok, ◌>>=◌, item, Inst, inst_none, Flags, Value, bool_type, int_type, float_type,
  str_type,
}
use valiant.Config.Access.{
  getnbool, setnbool, getnint, setnint, getnfloat, setnfloat, getnstr, getnstr_dup, setnstr,
}
use valiant.Config.Tree.{Config, body_of, opt_create}
use valiant.Config.Lookup.{inst_compare, opts_of, with_opts, opt_of, with_opt, sec_getnopt, sec_set}

module _ {Double : Type 0} (same : Value Double → Value Double → Bool) where
  -- `vt_config_sec_getnbool`, `vt_config_sec_setnbool`, `vt_config_sec_setnopt_bool`
  unfoldable pub sec_getnbool : Config Double → Bytes → ℤ → Outcome Bool
  sec_getnbool sec name idx = do
    (at, o) ← sec_getnopt sec (some name) (pos 0) inst_compare
    opt ← opt_of o
    getnbool same opt idx

  unfoldable pub sec_setnbool :
      Config Double → Bytes → Bool → ℤ → Inst → (memory : Bool) → Outcome (Config Double × ℕ)
  sec_setnbool sec name v idx inst memory = do
    cells ← opts_of (body_of sec)
    (at, o) ← sec_getnopt sec (some name) (pos 0) inst_compare
    opt ← opt_of o
    (opt', i) ← setnbool same opt v idx inst memory
    ok (with_opts sec (set cells at (item (with_opt o opt'))), i)

  unfoldable pub sec_setnopt_bool :
      Config Double
      → Bytes
      → Flags
      → Bool
      → ℤ
      → Inst
      → (memory : Bool) → Outcome (Config Double × ℕ)
  sec_setnopt_bool sec name flags v idx inst memory = do
    let o = opt_create name flags bool_type
    opt ← opt_of o
    (opt', i) ← setnbool same opt v (pos 0) inst_none memory
    sec_set sec (with_opt o opt') idx inst memory

  -- `vt_config_sec_getnint`, `vt_config_sec_setnint`, `vt_config_sec_setnopt_int`
  unfoldable pub sec_getnint : Config Double → Bytes → ℤ → Outcome ℤ
  sec_getnint sec name idx = do
    (at, o) ← sec_getnopt sec (some name) (pos 0) inst_compare
    opt ← opt_of o
    getnint same opt idx

  unfoldable pub sec_setnint :
      Config Double → Bytes → ℤ → ℤ → Inst → (memory : Bool) → Outcome (Config Double × ℕ)
  sec_setnint sec name v idx inst memory = do
    cells ← opts_of (body_of sec)
    (at, o) ← sec_getnopt sec (some name) (pos 0) inst_compare
    opt ← opt_of o
    (opt', i) ← setnint same opt v idx inst memory
    ok (with_opts sec (set cells at (item (with_opt o opt'))), i)

  unfoldable pub sec_setnopt_int :
      Config Double → Bytes → Flags → ℤ → ℤ → Inst → (memory : Bool) → Outcome (Config Double × ℕ)
  sec_setnopt_int sec name flags v idx inst memory = do
    let o = opt_create name flags int_type
    opt ← opt_of o
    (opt', i) ← setnint same opt v (pos 0) inst_none memory
    sec_set sec (with_opt o opt') idx inst memory

  -- `vt_config_sec_getnfloat`, `vt_config_sec_setnfloat`, `vt_config_sec_setnopt_float`
  unfoldable pub sec_getnfloat : Config Double → Bytes → ℤ → Outcome Double
  sec_getnfloat sec name idx = do
    (at, o) ← sec_getnopt sec (some name) (pos 0) inst_compare
    opt ← opt_of o
    getnfloat same opt idx

  unfoldable pub sec_setnfloat :
      Config Double → Bytes → Double → ℤ → Inst → (memory : Bool) → Outcome (Config Double × ℕ)
  sec_setnfloat sec name v idx inst memory = do
    cells ← opts_of (body_of sec)
    (at, o) ← sec_getnopt sec (some name) (pos 0) inst_compare
    opt ← opt_of o
    (opt', i) ← setnfloat same opt v idx inst memory
    ok (with_opts sec (set cells at (item (with_opt o opt'))), i)

  unfoldable pub sec_setnopt_float :
      Config Double
      → Bytes
      → Flags
      → Double
      → ℤ
      → Inst
      → (memory : Bool) → Outcome (Config Double × ℕ)
  sec_setnopt_float sec name flags v idx inst memory = do
    let o = opt_create name flags float_type
    opt ← opt_of o
    (opt', i) ← setnfloat same opt v (pos 0) inst_none memory
    sec_set sec (with_opt o opt') idx inst memory

  -- `vt_config_sec_getnstr`, `vt_config_sec_setnstr`, `vt_config_sec_setnopt_str`
  unfoldable pub sec_getnstr : Config Double → Bytes → ℤ → Outcome Bytes
  sec_getnstr sec name idx = do
    (at, o) ← sec_getnopt sec (some name) (pos 0) inst_compare
    opt ← opt_of o
    getnstr same opt idx

  unfoldable pub sec_setnstr :
      Config Double → Bytes → Bytes → ℤ → Inst → (memory : Bool) → Outcome (Config Double × ℕ)
  sec_setnstr sec name v idx inst memory = do
    cells ← opts_of (body_of sec)
    (at, o) ← sec_getnopt sec (some name) (pos 0) inst_compare
    opt ← opt_of o
    (opt', i) ← setnstr same opt v idx inst memory
    ok (with_opts sec (set cells at (item (with_opt o opt'))), i)

  unfoldable pub sec_setnopt_str :
      Config Double
      → Bytes
      → Flags
      → Bytes
      → ℤ
      → Inst
      → (memory : Bool) → Outcome (Config Double × ℕ)
  sec_setnopt_str sec name flags v idx inst memory = do
    let o = opt_create name flags str_type
    opt ← opt_of o
    (opt', i) ← setnstr same opt v (pos 0) inst_none memory
    sec_set sec (with_opt o opt') idx inst memory

  -- `vt_config_sec_getnstr_dup`
  unfoldable pub sec_getnstr_dup : Config Double → Bytes → ℤ → (memory : Bool) → Outcome Bytes
  sec_getnstr_dup sec name idx memory = do
    (at, o) ← sec_getnopt sec (some name) (pos 0) inst_compare
    opt ← opt_of o
    getnstr_dup same opt idx memory
