-- ===== src/Config/Tree.antt =====
-- Configurations (src/config.c, include/valiant/config.h): options, sections and files, how they are
-- created and destroyed, and the definitions that a file is read by.
use valiant.Prelude.{ℕ, Bool, true, List, [], ◌∷◌, Option, none, some, Bytes, take}
use valiant.Config.Types.{
  Outcome, ok, fault, ◌>>◌, Hole, null, junk, freed, Cell, item, hole, Flags, ConfigType, type_none,
  type_file, type_sec, type_opt, Value, ValueType, Vals, vals, released, Opt,
}

-- `VT_CONFIG_NAME_MAX`, `VT_CONFIG_TITLE_MAX`
abbrev pub name_max : ℕ
name_max = 32

abbrev pub title_max : ℕ
title_max = 32

mutual
  -- `vt_config_t`: the name, the flags, the line, the column and the member of the union that the
  -- type stands for
  pub data Config (Double : Type 0) : Type 0 where
    config : Bytes → Flags → ℕ → ℕ → Body Double → Config Double

  pub data Body (Double : Type 0) : Type 0 where
    body_none : Body Double
    body_file : Cells Double → Body Double
    body_sec : Bytes → Cells Double → Body Double
    body_opt : Opt Double → Body Double

  -- `opts` up to `nopts`: entries that point to an option, and others
  pub data Cells (Double : Type 0) : Type 0 where
    end : Cells Double
    node : Config Double → Cells Double → Cells Double
    gap : Hole → Cells Double → Cells Double

mutual
  -- `vt_config_def_t`, and the definitions up to `VT_CONFIG_END`
  pub data Def (Double : Type 0) : Type 0 where
    def :
        Bytes → Flags → DefBody Double → Option (Config Double → Config Double → Bool) → Def Double

  pub data DefBody (Double : Type 0) : Type 0 where
    def_opt : (dquot squot : Option Bytes) → ValueType → Value Double → DefBody Double
    def_sec : (title : Option Bytes) → Defs Double → DefBody Double

  pub data Defs (Double : Type 0) : Type 0 where
    def_end : Defs Double
    def_next : Def Double → Defs Double → Defs Double

module _ {Double : Type 0} where
  -- The array as a list, and back.
  unfoldable pub to_list : Cells Double → List (Cell (Config Double))
  to_list end = []
  to_list (node c cells) = item c ∷ to_list cells
  to_list (gap h cells) = hole h ∷ to_list cells

  unfoldable pub of_list : List (Cell (Config Double)) → Cells Double
  of_list [] = end
  of_list (item c ∷ cells) = node c (of_list cells)
  of_list (hole h ∷ cells) = gap h (of_list cells)

  unfoldable pub name_of : Config Double → Bytes
  name_of (config name flags line column body) = name

  unfoldable pub flags_of : Config Double → Flags
  flags_of (config name flags line column body) = flags

  unfoldable pub body_of : Config Double → Body Double
  body_of (config name flags line column body) = body

  unfoldable pub body_type : Body Double → ConfigType
  body_type body_none = type_none
  body_type (body_file cells) = type_file
  body_type (body_sec title cells) = type_sec
  body_type (body_opt opt) = type_opt

  -- `opt->type`
  unfoldable pub type_of : Config Double → ConfigType
  unfolding body_of body_type
  type_of c = body_type (body_of c)

  -- `vt_config_create`, with the type that is assigned behind it
  unfoldable pub create : Bytes → Flags → Body Double → Config Double
  create name flags body = config (take 31 name) flags 0 0 body

  -- `vt_config_opt_create`
  unfoldable pub opt_create : Bytes → Flags → ValueType → Config Double
  unfolding create
  opt_create name flags type =
      create name flags (body_opt (record { type = type; values = vals [] }))

  -- `vt_config_sec_create`
  unfoldable pub sec_create : Bytes → Flags → Option Bytes → Config Double
  unfolding create
  sec_create name flags none = create name flags (body_sec [] end)
  sec_create name flags (some title) =
      create name (record flags { title = true }) (body_sec (take title_max title) end)

  -- the loop over `vals` of `vt_config_destroy`, and `free (vals)`
  unfoldable pub destroy_cells : List (Cell (Value Double)) → Outcome (Unit {0})
  destroy_cells [] = ok tt
  destroy_cells (item v ∷ cells) = destroy_cells cells
  destroy_cells (hole null ∷ cells) = destroy_cells cells
  destroy_cells (hole junk ∷ cells) = fault
  destroy_cells (hole freed ∷ cells) = fault

  unfoldable pub destroy_vals : Vals Double → Outcome (Unit {0})
  unfolding destroy_cells
  destroy_vals released = fault
  destroy_vals (vals cells) = destroy_cells cells

-- `vt_config_destroy`: what it reads without a type is not initialised
unfoldable mutual
  pub destroy : {Double : Type 0} → Config Double → Outcome (Unit {0})
  destroy (config name flags line column body) = destroy_body body

  pub destroy_body : {Double : Type 0} → Body Double → Outcome (Unit {0})
  destroy_body body_none = fault
  destroy_body (body_file cells) = destroy_opts cells
  destroy_body (body_sec title cells) = destroy_opts cells
  destroy_body (body_opt opt) = destroy_vals opt.values

  pub destroy_opts : {Double : Type 0} → Cells Double → Outcome (Unit {0})
  destroy_opts end = ok tt
  destroy_opts (node c cells) = destroy c >> destroy_opts cells
  destroy_opts (gap null cells) = destroy_opts cells
  destroy_opts (gap junk cells) = fault
  destroy_opts (gap freed cells) = fault
