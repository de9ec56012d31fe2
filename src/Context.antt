-- ===== src/Context.antt =====
-- The checks and stages that the configuration names (src/context.c). A section is taken as what its
-- options say, and memory is at hand.
pub mod Ranges
mod Tests
use valiant.Prelude.{
  ℕ, suc, Bool, true, false, Option, none, some, List, [], ◌∷◌, if◌then◌else◌, Bytes, strcmp,
}
use valiant.Worker.{Check, Stage}

-- A section `check`: the options `dict` and `depends`.
pub record CheckSection : Type 0 where
  pub dict_name : Bytes
  pub depends_names : List Bytes

-- A section with checks; only one that is named `stage` has dependencies.
pub record StageSection : Type 0 where
  pub check_sections : List CheckSection
  pub is_stage : Bool
  pub stage_names : List Bytes

-- `vt_context_get_dict_pos`, over the names of the dictionaries; `none` is -1
unfoldable pub get_dict_pos : List Bytes → Bytes → Option ℕ
get_dict_pos [] dict = none
get_dict_pos (name ∷ names) dict =
    let rest = get_dict_pos names dict in
    if strcmp name dict then some 0 else elim rest [ none ↦ none | some i ↦ some (suc i) ]

-- the loops over the option `depends`
unfoldable pub depends_pos : List Bytes → List Bytes → Option (List ℕ)
depends_pos names [] = some []
depends_pos names (dict ∷ dicts) = elim (get_dict_pos names dict) [
  | none ↦ none
  | some i ↦ elim (depends_pos names dicts) [ none ↦ none | some rest ↦ some (i ∷ rest) ]
]

-- `vt_check_create`
unfoldable pub check_create : List Bytes → CheckSection → Option Check
check_create names sec = elim (get_dict_pos names sec.dict_name) [
  | none ↦ none
  | some i ↦ elim (depends_pos names sec.depends_names) [
    | none ↦ none
    | some ds ↦ some (record { dict = i; depends = ds })
  ]
]

-- the loop over the sections `check`
unfoldable pub checks_create : List Bytes → List CheckSection → Option (List Check)
checks_create names [] = some []
checks_create names (sec ∷ secs) = elim (check_create names sec) [
  | none ↦ none
  | some c ↦ elim (checks_create names secs) [ none ↦ none | some rest ↦ some (c ∷ rest) ]
]

-- `vt_stage_create`
unfoldable pub stage_create : List Bytes → StageSection → Option Stage
stage_create names sec = elim (checks_create names sec.check_sections) [
  | none ↦ none
  | some checks ↦ elim (depends_pos names (if sec.is_stage then sec.stage_names else [])) [
    | none ↦ none
    | some ds ↦ some (record { checks = checks; stage_depends = ds })
  ]
]
