-- ===== src/Config/Sections.antt =====
-- The options of a section or a file (src/config.c): `vt_config_sec_getn_cmn`,
-- `vt_config_sec_setn_cmn`, `vt_config_sec_unsetn_cmn` and what is built on them. A section is the
-- list of its entries.
use valiant.Prelude.{
  ℕ, suc, ◌+◌, ◌-◌, Bool, true, false, not, ◌&&◌, ◌||◌, List, [], ◌∷◌, ◌++◌, ltb, if◌then◌else◌,
  Bytes, strcasecmp, length, take, set,
}
use valiant.Prelude.Int.{ℤ}
use valiant.Config.Types.{
  Outcome, ok, err, ◌>>=◌, ◌>>◌, Cell, item, hole, junk, freed, deref, memmove, entry, Inst,
  ConfigType, type_none, type_opt, same_type, vals,
}
use valiant.Config.Options.{place}
use valiant.Config.Tree.{
  Config, config, Body, body_none, body_file, body_sec, body_opt, end, name_of, body_of, type_of,
  destroy, destroy_opts,
}

-- What `vt_config_sec_getn_cmn` reads of its `opt`: the name and the type.
pub record Key : Type 0 where
  pub name : Bytes
  pub type : ConfigType

-- `sz`
unfoldable pub nonempty : Bytes → Bool
nonempty [] = false
nonempty (c ∷ name) = true

-- `inst & (VT_CONFIG_INST_APPEND | VT_CONFIG_INST_PREPEND | VT_CONFIG_INST_SET)`
unfoldable pub sets : Inst → Bool
sets inst = inst.append || inst.prepend || inst.set

module _ {Double : Type 0} where
  -- A round of the first loop: whether the option counts, and the type that its name has then.
  unfoldable pub counts :
      Key → (compare : Bool) → (seen : ConfigType) → Config Double → Outcome (Bool × ConfigType)
  counts key compare seen o =
      let seen' = if same_type seen type_none then type_of o else seen in
      let other = same_type key.type type_none || same_type key.type (type_of o) in
      if strcasecmp (name_of o) key.name
      then if same_type seen' (type_of o) && other then ok (true, seen') else err
      else if compare
      then ok (not (nonempty key.name) && other, seen)
      else ok (true, seen)

  -- the first loop: `n`
  unfoldable pub count_opts :
      Key → (compare : Bool) → (seen : ConfigType) → List (Cell (Config Double)) → Outcome ℕ
  unfolding counts
  count_opts key compare seen [] = ok 0
  count_opts key compare seen (c ∷ cells) = do
    o ← deref c
    (m, seen') ← counts key compare seen o
    n ← count_opts key compare seen' cells
    ok (if m then suc n else n)

  -- a round of the second loop: whether `pos` is counted
  unfoldable pub mark : Key → (compare : Bool) → Config Double → Bool
  mark key compare o =
      if compare
      then (nonempty key.name && strcasecmp (name_of o) key.name)
        && (same_type key.type type_none || same_type key.type (type_of o))
      else true

  unfoldable pub marks_of :
      Key → (compare : Bool) → List (Cell (Config Double)) → Outcome (List Bool)
  unfolding mark
  marks_of key compare [] = ok []
  marks_of key compare (c ∷ cells) = do
    o ← deref c
    marks ← marks_of key compare cells
    ok (mark key compare o ∷ marks)

  -- `vt_config_sec_getn_cmn`
  unfoldable pub sec_getn_cmn : List (Cell (Config Double)) → Key → ℤ → Inst → Outcome ℕ
  unfolding sets
  sec_getn_cmn cells key idx inst = do
    n ← count_opts key inst.compare type_none cells
    let exists = ltb 0 n && (same_type key.type type_opt && inst.compare && sets inst)
    marks ← if exists then err else marks_of key inst.compare cells
    place n (length cells) marks idx inst

  -- the option that is stored: `opt` itself, or a clone of its name, its flags and its types
  unfoldable pub clone : Config Double → Config Double
  clone (config name flags line column body_none) = config name flags 0 0 body_none
  clone (config name flags line column (body_file cells)) = config name flags 0 0 (body_file end)
  clone (config name flags line column (body_sec title cells)) =
      config name flags 0 0 (body_sec [] end)
  clone (config name flags line column (body_opt opt)) =
      config name flags 0 0 (body_opt (record { type = opt.type; values = vals [] }))

  -- what is freed of an option that is replaced: its options, and nothing of its values
  unfoldable pub release : Body Double → Outcome (Unit {0})
  release body_none = ok tt
  release (body_file cells) = destroy_opts cells
  release (body_sec title cells) = destroy_opts cells
  release (body_opt opt) = ok tt

  -- `new_opts`, one longer, with the option at `pos`
  unfoldable pub insert_opt :
      List (Cell (Config Double)) → ℕ → Config Double → List (Cell (Config Double))
  unfolding memmove
  insert_opt cells at o =
      let n = length cells in
      let longer = cells ++ hole junk ∷ [] in
      set (if ltb 0 (n - at) then memmove longer at (at + 1) (n - at) else longer) at (item o)

  -- `vt_config_sec_setn_cmn`: the entries and the position
  unfoldable pub put_opt :
      List (Cell (Config Double))
      → (more : Bool) → ℕ
      → Config Double
      → Outcome (List (Cell (Config Double)))
  put_opt [] more at o = ok (insert_opt [] at o)
  put_opt (c ∷ cells) true at o = ok (insert_opt (c ∷ cells) at o)
  put_opt (c ∷ cells) false at o = do
    old ← deref (entry (c ∷ cells) at)
    release (body_of old)
    ok (set (c ∷ cells) at (item o))

  unfoldable pub sec_setn_cmn :
      List (Cell (Config Double))
      → Config Double
      → ℤ
      → Inst
      → (memory : Bool) → Outcome (List (Cell (Config Double)) × ℕ)
  sec_setn_cmn cells o idx inst memory = do
    let key : Key = record { name = name_of o; type = type_of o }
    at ← sec_getn_cmn cells key idx (record inst { set = true })
    let stored = if inst.recycle then o else clone o
    cells' ← if memory then put_opt cells (inst.prepend || inst.append) at stored else err
    ok (cells', at)

  -- the entries without the one at `at`, which is destroyed
  unfoldable pub take_opt : List (Cell (Config Double)) → ℕ → List (Cell (Config Double))
  unfolding memmove
  take_opt cells at =
      let n = length cells - 1 in
      let emptied = set cells at (hole freed) in
      take n (if ltb at n then memmove emptied (at + 1) at (n - at) else emptied)

  -- `vt_config_sec_unsetn_cmn`
  unfoldable pub sec_unsetn_cmn :
      List (Cell (Config Double)) → Key → ℤ → Inst → Outcome (List (Cell (Config Double)))
  sec_unsetn_cmn cells key idx inst = do
    at ← sec_getn_cmn cells key idx (record inst { set = false; prepend = false; append = false })
    o ← deref (entry cells at)
    destroy o
    ok (take_opt cells at)
