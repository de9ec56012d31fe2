-- ===== src/Config/Lookup.antt =====
-- Options and sections by their names (src/config.c): `vt_config_sec_getnopt`,
-- `vt_config_sec_getnsec` and the functions for each type of value over them. A file or a section is
-- the configuration that holds the options.
use valiant.Prelude.{
  ℕ, suc, Bool, true, false, ◌&&◌, Option, none, some, List, [], ◌∷◌, if◌then◌else◌, Bytes, strcmp,
  strcasecmp, length, take,
}
use valiant.Prelude.Int.{ℤ}
use valiant.Config.Types.{
  Outcome, ok, fault, ◌>>=◌, Cell, deref, entry, Inst, inst_none, Flags, ConfigType, type_sec,
  type_opt, same_type, ValueType, Opt,
}
use valiant.Config.Tree.{
  name_max, Config, config, Body, body_none, body_file, body_sec, body_opt, to_list, of_list,
  name_of, flags_of, body_of, type_of, sec_create, opt_create,
}
use valiant.Config.Sections.{Key, sec_getn_cmn, sec_setn_cmn, sec_unsetn_cmn}

-- the flags of a search by name
abbrev pub inst_compare : Inst
inst_compare = record inst_none { compare = true }

-- the `opt` of a search on the stack: `name` is NULL or a name
unfoldable pub key_of : ConfigType → Option Bytes → (compare : Bool) → Key
key_of type (some name) true = record { name = take name_max name; type = type }
key_of type _ _ = record { name = []; type = type }

-- the name that is looked at under the flag; it is asserted to be there
unfoldable pub name_for : Option Bytes → (compare : Bool) → Outcome (Option Bytes)
name_for name false = ok none
name_for none true = fault
name_for (some name) true = ok (some name)

module _ {Double : Type 0} where
  -- `vt_config_sec_opts`, where the configuration is a section or a file
  unfoldable pub opts_of : Body Double → Outcome (List (Cell (Config Double)))
  unfolding to_list
  opts_of (body_file cells) = ok (to_list cells)
  opts_of (body_sec title cells) = ok (to_list cells)
  opts_of body_none = fault
  opts_of (body_opt opt) = fault

  unfoldable pub with_opts : Config Double → List (Cell (Config Double)) → Config Double
  unfolding of_list
  with_opts (config name flags line column (body_sec title old)) cells =
      config name flags line column (body_sec title (of_list cells))
  with_opts (config name flags line column _) cells =
      config name flags line column (body_file (of_list cells))

  -- the member `opt` of the union, where the configuration is an option
  unfoldable pub opt_of : Config Double → Outcome (Opt Double)
  opt_of (config name flags line column (body_opt opt)) = ok opt
  opt_of (config name flags line column _) = fault

  unfoldable pub with_opt : Config Double → Opt Double → Config Double
  with_opt (config name flags line column body) opt = config name flags line column (body_opt opt)

  -- `vt_config_sec_getnopt`: the position of the option, and the option
  unfoldable pub sec_getnopt : Config Double → Option Bytes → ℤ → Inst → Outcome (ℕ × Config Double)
  sec_getnopt sec name idx inst = do
    cells ← opts_of (body_of sec)
    at ← sec_getn_cmn cells (key_of type_opt name inst.compare) idx (record inst { compare = true })
    o ← deref (entry cells at)
    ok (at, o)

  -- `vt_config_sec_getnsec`
  unfoldable pub sec_getnsec : Config Double → Option Bytes → ℤ → Inst → Outcome (ℕ × Config Double)
  sec_getnsec sec name idx inst = do
    cells ← opts_of (body_of sec)
    at ← sec_getn_cmn cells (key_of type_sec name inst.compare) idx inst_compare
    o ← deref (entry cells at)
    ok (at, o)

  -- `vt_config_sec_unsetnopt`, `vt_config_sec_unsetnsec`
  unfoldable pub sec_unsetnopt : Config Double → Option Bytes → ℤ → Inst → Outcome (Config Double)
  sec_unsetnopt sec name idx inst = do
    cells ← opts_of (body_of sec)
    cells' ←
        sec_unsetn_cmn cells (key_of type_opt name inst.compare) idx
          (record inst { compare = true })
    ok (with_opts sec cells')

  unfoldable pub sec_unsetnsec : Config Double → Option Bytes → ℤ → Inst → Outcome (Config Double)
  sec_unsetnsec sec name idx inst = do
    cells ← opts_of (body_of sec)
    cells' ←
        sec_unsetn_cmn cells (key_of type_sec name inst.compare) idx
          (record inst { compare = true })
    ok (with_opts sec cells')

  -- `vt_config_sec_setn_cmn` with an option that was made for it
  unfoldable pub sec_set :
      Config Double → Config Double → ℤ → Inst → (memory : Bool) → Outcome (Config Double × ℕ)
  sec_set sec o idx inst memory = do
    cells ← opts_of (body_of sec)
    (cells', at) ← sec_setn_cmn cells o idx (record inst { recycle = true }) memory
    ok (with_opts sec cells', at)

  -- `vt_config_sec_setnopt`, `vt_config_sec_setnsec`
  unfoldable pub sec_setnopt :
      Config Double → Bytes → Flags → ℤ → Inst → (memory : Bool) → Outcome (Config Double × ℕ)
  sec_setnopt sec name flags idx inst memory =
      sec_set sec (opt_create name flags ValueType.none_type) idx inst memory

  unfoldable pub sec_setnsec :
      Config Double → Bytes → Flags → ℤ → Inst → (memory : Bool) → Outcome (Config Double × ℕ)
  sec_setnsec sec name flags idx inst memory =
      sec_set sec (sec_create name flags none) idx inst memory

  -- `vt_config_sec_gettitle`; `none` is NULL
  unfoldable pub sec_gettitle : Config Double → Outcome (Option Bytes)
  sec_gettitle (config name flags line column (body_sec title cells)) =
      ok (if flags.title then some title else none)
  sec_gettitle (config name flags line column _) = fault

  -- `vt_config_sec_getnopts`
  unfoldable pub sec_getnopts : Config Double → Outcome ℕ
  sec_getnopts sec = do cells ← opts_of (body_of sec); ok (length cells)

  -- the loop of `vt_config_sec_getnsecs`: whether an entry counts
  unfoldable pub is_sec : Option Bytes → Config Double → Bool
  is_sec none o = same_type (type_of o) type_sec
  is_sec (some name) o =
      same_type (type_of o) type_sec
      && (if (flags_of o).nocase then strcasecmp (name_of o) name else strcmp (name_of o) name)

  unfoldable pub count_secs : Option Bytes → List (Cell (Config Double)) → Outcome ℕ
  unfolding is_sec
  count_secs name [] = ok 0
  count_secs name (c ∷ cells) = do
    o ← deref c
    n ← count_secs name cells
    ok (if is_sec name o then suc n else n)

  -- `vt_config_sec_getnsecs`
  unfoldable pub sec_getnsecs : Config Double → Option Bytes → Inst → Outcome ℕ
  unfolding name_for
  sec_getnsecs sec name inst = do
    cells ← opts_of (body_of sec)
    wanted ← name_for name inst.compare
    count_secs wanted cells
