-- ===== src/Config/Options.antt =====
-- The values of an option (src/config.c): `vt_config_getn_cmn`, `vt_config_setn_cmn`,
-- `vt_config_unsetn_cmn`, and the functions for each type of value over them.
-- A position is the `pos` of the code; an error stands for -1. Where `vt_config_getn_cmn` returns
-- -1 without an errno it is an error as well.
use valiant.Prelude.{
  ℕ, zero, suc, ◌+◌, ◌-◌, Bool, true, false, ◌||◌, ◌++◌, Option, none, some, List, [], ◌∷◌, ltb,
  if◌then◌else◌, length, take, set, replicate,
}
use valiant.Prelude.Int.{ℤ, pos, negsuc}
use valiant.Config.Types.{
  Outcome, ok, err, fault, ◌>>=◌, ◌>>◌, Cell, item, hole, null, junk, freed, deref, memmove,
  memmove_bytes, entry, Inst, Value, no_value, value_type, same_value_type, Vals, vals, released,
  Opt, opt_vals,
}

-- `n` as a number of entries
unfoldable pub count : List Bool → ℕ
count [] = 0
count (m ∷ marks) = if m then suc (count marks) else count marks

-- `for (i = 0, pos = 0; pos < n && i < nvals; i++)`: what `i` comes to
unfoldable pub advance : ℕ → List Bool → ℕ
advance zero marks = 0
advance (suc n) [] = 0
advance (suc n) (m ∷ marks) = suc (advance (if m then n else suc n) marks)

-- How many of `n` entries to go past for the index `idx`; from the end where it is negative.
unfoldable pub past : ℤ → ℕ → ℕ
past (pos idx) n = if ltb idx n then idx + 1 else n
past (negsuc idx) n = if ltb n idx then 1 else n - idx

-- `if (! (inst & VT_CONFIG_INST_APPEND)) i--; return i;`
unfoldable pub step_back : Bool → ℕ → Outcome ℕ
step_back true i = ok i
step_back false zero = err
step_back false (suc i) = ok i

-- The common end of `vt_config_getn_cmn` and `vt_config_sec_getn_cmn`: `n` entries count, of `total`,
-- and `marks` are those that the last loop counts.
unfoldable pub place : (n total : ℕ) → List Bool → ℤ → Inst → Outcome ℕ
unfolding step_back advance past
place zero total marks idx inst =
    if inst.append then ok total else if inst.prepend || inst.set then ok 0 else err
place (suc n) total marks idx inst = step_back inst.append (advance (past idx (suc n)) marks)

module _ {Double : Type 0} where
  -- the array of `vt_config_setn_cmn` once it has its size: `realloc` of a freed array is a fault
  unfoldable pub grown : Vals Double → (more : Bool) → Outcome (List (Cell (Value Double)))
  grown released more = fault
  grown (vals []) more = ok (hole null ∷ [])
  grown (vals (c ∷ cells)) true = ok (c ∷ cells ++ hole null ∷ [])
  grown (vals (c ∷ cells)) false = ok (c ∷ cells)

  -- `vt_value_destroy (vals[pos])` where no value is added: it takes NULL, and any other pointer it
  -- follows
  unfoldable pub destroyed : (more : Bool) → Cell (Value Double) → Outcome (Unit {0})
  destroyed true c = ok tt
  destroyed false (item v) = ok tt
  destroyed false (hole null) = ok tt
  destroyed false (hole junk) = fault
  destroyed false (hole freed) = fault

  -- `vals[pos] = val` behind the `memmove`, or in place of the value that is destroyed
  unfoldable pub put_value :
      List (Cell (Value Double)) → (more : Bool) → ℕ → Value Double → List (Cell (Value Double))
  unfolding memmove
  put_value cells true at val =
      if ltb at (length cells - 1)
      then set (memmove cells at (at + 1) (length cells - at)) at (item val)
      else set cells at (item val)
  put_value cells false at val = set cells at (item val)

  -- the new value; without one it is all zero
  unfoldable pub new_value : Option (Value Double) → Value Double
  new_value none = no_value
  new_value (some val) = val

  -- the array of `vt_config_unsetn_cmn` without the value at `at`
  unfoldable pub take_value : List (Cell (Value Double)) → ℕ → Vals Double
  unfolding memmove_bytes
  take_value cells at =
      let n = length cells in
      let moved = memmove_bytes (set cells at (hole freed)) (at + 1) at (n - at - 1) in
      if ltb 1 n then vals (take (n - 1) moved) else released

module _ {Double : Type 0} (same : Value Double → Value Double → Bool) where
  -- `vt_value_cmp (vals[i], val) == 0` for every `i`
  unfoldable pub marks_of : Value Double → List (Cell (Value Double)) → Outcome (List Bool)
  marks_of val [] = ok []
  marks_of val (c ∷ cells) = do v ← deref c; marks ← marks_of val cells; ok (same v val ∷ marks)

  -- `vt_config_getn_cmn`; `val` is NULL or a value
  unfoldable pub getn_marks : Opt Double → Option (Value Double) → Bool → Outcome (List Bool)
  unfolding marks_of
  getn_marks opt none true = fault
  getn_marks opt (some val) true =
      if same_value_type opt.type (value_type val)
      then marks_of val (opt_vals opt.values)
      else fault
  getn_marks opt val false = ok (replicate (length (opt_vals opt.values)) true)

  unfoldable pub getn_cmn : Opt Double → Option (Value Double) → ℤ → Inst → Outcome ℕ
  unfolding getn_marks count place
  getn_cmn opt val idx inst = do
    marks ← getn_marks opt val inst.compare
    place (count marks) (length (opt_vals opt.values)) marks idx inst

  -- `vt_config_setn_cmn`: the option and the position; `memory` tells whether it can be allocated
  unfoldable pub setn_cmn :
      Opt Double → Option (Value Double) → ℤ → Inst → (memory : Bool) → Outcome (Opt Double × ℕ)
  unfolding getn_cmn destroyed new_value
  setn_cmn opt val idx inst memory = do
    at ← getn_cmn opt val idx inst
    let more = inst.prepend || inst.append
    cells ← if memory then grown opt.values more else err
    destroyed more (entry cells at)
    ok (record opt { values = vals (put_value cells more at (new_value val)) }, at)

  -- `vt_config_unsetn_cmn`
  unfoldable pub unsetn_cmn :
      Opt Double → Option (Value Double) → ℤ → Inst → Outcome (Opt Double × ℕ)
  unfolding getn_cmn
  unsetn_cmn opt val idx inst = do
    at ← getn_cmn opt val idx inst
    v ← deref (entry (opt_vals opt.values) at)
    ok (record opt { values = take_value (opt_vals opt.values) at }, at)
