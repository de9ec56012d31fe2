-- ===== src/Config/Defaults.antt =====
-- Defaults (src/config.c): `vt_config_defaults`, where memory can be allocated. `realloc` leaves the
-- array that was read before as it is.
use valiant.Prelude.{
  ℕ, suc, Bool, true, false, Option, none, some, List, [], ◌∷◌, if◌then◌else◌, Bytes, length, take,
}
use valiant.Prelude.Int.{negsuc}
use valiant.Config.Types.{
  Outcome, ok, fault, ◌>>=◌, Cell, deref, Inst, inst_none, Flags, Value, ValueType, bool_type,
  int_type, float_type, str_type, none_type, Opt,
}
use valiant.Config.Access.{
  setnbool, setnint, setnfloat, setnstr, read_bln, read_lng, read_dbl, read_str,
}
use valiant.Config.Tree.{
  Config, Body, body_none, body_file, body_sec, body_opt, Def, def, DefBody, def_opt, def_sec, Defs,
  def_end, def_next, name_of, body_of, opt_create, sec_create,
}
use valiant.Config.Sections.{sec_setn_cmn}
use valiant.Config.Lookup.{opts_of, with_opts, opt_of, with_opt}
use valiant.Config.Items.{same_name, update_opt}

-- the flags of the options that are added
abbrev pub defaults_inst : Inst
defaults_inst = record inst_none { set = true; append = true; recycle = true }

-- the flags of the definition, without those that belong to it alone
unfoldable pub sec_flags : Flags → Flags
sec_flags flags = record flags { list = false; nodefault = false }

unfoldable pub opt_flags : Flags → Flags
opt_flags flags = record flags { list = false; title = false; nodefault = false }

module _ {Double : Type 0} where
  -- the loop over `opts` up to `nopts`: the first one with the name of the definition, and where
  unfoldable pub find_opt :
      (nocase : Bool)
      → Bytes
      → (at : ℕ) → List (Cell (Config Double))
      → Outcome (Option (ℕ × Config Double))
  find_opt nocase name at [] = ok none
  find_opt nocase name at (c ∷ cells) =
      let rest = find_opt nocase name (suc at) cells in
      do o ← deref c; if same_name nocase (name_of o) name then ok (some (at, o)) else rest

  -- `vt_config_issec`
  unfoldable pub issec : Body Double → Bool
  issec body_none = false
  issec (body_file cells) = true
  issec (body_sec title cells) = true
  issec (body_opt opt) = false

  -- `vt_config_sec_setn_cmn (sec, opt, -1, inst, err)`
  unfoldable pub add_opt : Config Double → Config Double → Outcome (Config Double)
  add_opt sec o = do
    cells ← opts_of (body_of sec)
    (cells', at) ← sec_setn_cmn cells o (negsuc 0) defaults_inst true
    ok (with_opts sec cells')

module _ {Double : Type 0} (same : Value Double → Value Double → Bool) where
  -- `vt_config_setbool` and the others for the type of the definition: the member of its value
  unfoldable pub set_default : Opt Double → ValueType → Value Double → Outcome (Opt Double × ℕ)
  set_default opt bool_type v = do b ← read_bln v; setnbool same opt b (negsuc 0) inst_none true
  set_default opt int_type v = do n ← read_lng v; setnint same opt n (negsuc 0) inst_none true
  set_default opt float_type v = do d ← read_dbl v; setnfloat same opt d (negsuc 0) inst_none true
  set_default opt str_type v = do s ← read_str v; setnstr same opt s (negsuc 0) inst_none true
  set_default opt none_type v = ok (opt, 0)

  -- the option for a definition that no option was found for
  unfoldable pub default_opt : Bytes → Flags → ValueType → Value Double → Outcome (Config Double)
  default_opt name flags type v = do
    let o = opt_create name (opt_flags flags) type
    opt ← opt_of o
    (opt', at) ← set_default opt (if flags.nodefault then none_type else type) v
    ok (with_opt o opt')

  unfoldable mutual
    -- the loop of `vt_config_defaults` with `nopts`
    pub defaults : ℕ → Config Double → Defs Double → Outcome (Config Double)
    defaults nopts sec def_end = ok sec
    defaults nopts sec (def_next d defs) = do
      sec' ← default_def nopts sec d
      defaults nopts sec' defs

    -- a round of it
    pub default_def : ℕ → Config Double → Def Double → Outcome (Config Double)
    default_def nopts sec (def name flags body check) = do
      cells ← opts_of (body_of sec)
      hit ← find_opt flags.nocase name 0 (take nopts cells)
      default_body sec name flags hit body

    -- Where an option was found it is a section to go on in, or it stays; else one is made and added.
    -- A section that has the name of an option is read as the other member of the union.
    pub default_body :
        Config Double
        → Bytes
        → Flags
        → Option (ℕ × Config Double)
        → DefBody Double
        → Outcome (Config Double)
    default_body sec name flags (some (at, o)) (def_sec title defs) =
        if issec (body_of o)
        then (do
          cells ← opts_of (body_of o)
          o' ← defaults (length cells) o defs
          update_opt sec at o')
        else ok sec
    default_body sec name flags none (def_sec title defs) = do
      o ← defaults 0 (sec_create name (sec_flags flags) none) defs
      add_opt sec o
    default_body sec name flags (some (at, o)) (def_opt dquot squot type v) =
        if issec (body_of o) then fault else ok sec
    default_body sec name flags none (def_opt dquot squot type v) = do
      o ← default_opt name flags type v
      add_opt sec o

  -- `vt_config_defaults`
  unfoldable pub defaults_of : Config Double → Defs Double → Outcome (Config Double)
  defaults_of sec defs = do cells ← opts_of (body_of sec); defaults (length cells) sec defs
