-- ===== src/Config/Lost.antt =====
-- Values of an option (src/config.c): the arrays that `vt_config_unsetn_cmn` leaves, and
-- `vt_config_setn_cmn` where a value is prepended.
use valiant.Prelude.{
  ℕ, suc, ◌+◌, ◌-◌, ◌<◌, ◌≡◌, refl, sym, ap, subst, ◌∙◌, Bool, true, none, some, List, [], ◌∷◌,
  ◌++◌, map, length, length-append, length-set, set, take, lt→ltb, arith,
}
use valiant.Prelude.Int.{ℤ, pos, negsuc}
use valiant.Config.Types.{
  ok, fault, ◌>>=◌, Cell, item, hole, null, junk, freed, deref, entry, memmove, memmove_bytes,
  inst_none, Value, ValueType, same_value_type, vals, released, Opt, opt_vals,
}
use valiant.Config.Options.{
  count, place, getn_marks, getn_cmn, grown, put_value, setn_cmn, take_value, unsetn_cmn,
}
use valiant.Config.Access.{getn}
use valiant.Config.Shifts.{entry-memmove_end}
use valiant.Config.Moves.{
  length-memmove, entry-set_ne, length-take, length-memmove_bytes, entry-memmove_bytes, entry-take,
  entry-set,
}
use valiant.Config.Positions.{position, getn_cmn-plain}
use valiant.Config.Stored.{
  inst_prepend, value_at-lt, deref-freed, deref-junk, deref-item, position-last, position-pos,
  position_lt, grown-item, inst_append, getn-cells, entry-map_item, length-map_item,
}

take_value-dangles :
    {Double : Type 0} (cells : List (Cell (Value Double))) (i : ℕ)
    → suc i < length cells
    → (left : List (Cell (Value Double))) × (take_value cells i ≡ vals left)
      × (length left ≡ length cells - 1)
      × (entry left i ≡ hole freed)
unfolding take_value
take_value-dangles cells i h =
    let n = length cells in
    let emptied = set cells i (hole freed) in
    let same_length : length emptied ≡ n = length-set cells i (hole freed) in
    let moved = memmove_bytes emptied (i + 1) i (n - i - 1) in
    let m = length-memmove_bytes emptied (i + 1) i (n - i - 1) (omega arith) in
    let (kept, within) =
      entry-memmove_bytes emptied (i + 1) i (n - i - 1) i (omega arith) (omega arith) in
    (
      take (n - 1) moved,
      rw (lt→ltb 1 n (omega arith)) refl,
      length-take (n - 1) moved (omega arith),
      entry-take (n - 1) moved i (omega arith) within
          ∙ kept
          ∙ entry-set cells i (hole freed) (omega arith),
    )

put_value-loses :
    {Double : Type 0} (cells : List (Cell (Value Double))) (i : ℕ) (v : Value Double)
    → i < length cells
    → (cells' : List (Cell (Value Double))) × (put_value (cells ++ hole null ∷ []) true i v
        ≡ cells')
      × (length cells' ≡ suc (length cells))
      × (entry cells' i ≡ item v)
      × (entry cells' (length cells) ≡ hole junk)
unfolding put_value
put_value-loses cells i v h =
    let longer = cells ++ hole null ∷ [] in
    let l : length longer ≡ suc (length cells) =
      omega (arith, length-append cells (hole null ∷ [])) in
    let moved = memmove longer i (i + 1) (length longer - i) in
    let m : length moved ≡ length longer =
      length-memmove longer i (i + 1) (length longer - i) (omega arith) in
    let last : entry moved (length cells) ≡ hole junk =
      subst (λ k. entry (memmove longer i (i + 1) (k - i)) (length cells) ≡ hole junk) (sym l)
        (entry-memmove_end longer i (length cells) l (omega arith)) in
    (
      set moved i (item v),
      rw (lt→ltb i (length longer - 1) (omega arith)) refl,
      length-set moved i (item v) ∙ m ∙ l,
      entry-set moved i (item v) (omega arith),
      entry-set_ne moved i (length cells) (item v) (omega arith) ∙ last,
    )

module _ {Double : Type 0} (same : Value Double → Value Double → Bool) (opt : Opt Double)
    (type : ValueType) (x : Value Double) (xs : List (Value Double))
    (t : same_value_type opt.type type ≡ true) (e : opt.values ≡ vals (map item (x ∷ xs))) where
  -- An option of which a value other than the last is taken away has one value less; the entry at that
  -- position is still the pointer to the value that was destroyed, and a read of the position goes
  -- through it, which is undefined. (All entries pointed to values before, no flags are given, and the
  -- read is for the type of the option.)
  pub unsetn_cmn-dangles :
      (idx : ℤ) (i : ℕ)
      → position idx (length (x ∷ xs)) ≡ ok i
      → i < length xs
      → (opt' : Opt Double) × (unsetn_cmn same opt none idx inst_none ≡ ok (opt', i))
        × (length (opt_vals opt'.values) ≡ length xs)
        × (entry (opt_vals opt'.values) i ≡ hole freed)
        × (getn same opt' type (pos i) ≡ fault)
  unfolding unsetn_cmn opt_vals
  unsetn_cmn-dangles idx i at h =
      let cells = map item (x ∷ xs) in
      let n = length-map_item (x ∷ xs) in
      let (left, taken, l, f) = take_value-dangles cells i (omega (arith, n)) in
      let opt' : Opt Double = record opt { values = vals left } in
      let l' : length left ≡ length xs = omega (arith, l, n) in
      let (w, read) = value_at-lt (x ∷ xs) i (omega arith) in
      let m = length xs - 1 in
      let k : length left ≡ suc m = omega (arith, l', h) in
      let there = getn-cells same opt' type left m (pos i) t refl k in
      (
        opt',
        rw
            (
              getn_cmn-plain same opt cells (length xs) none idx inst_none e n refl refl,
              at,
              e,
              entry-map_item (x ∷ xs) i,
              read,
              taken,
            )
            refl,
        l',
        f,
        there
            ∙ ap (λ r. r >>= λ j. deref (entry left j)) (position-pos i m (omega arith))
            ∙ ap deref f
            ∙ deref-freed,
      )

  -- A value that is prepended at an index that stands for a position is read at that position, but
  -- the array is moved the wrong way: its last entry is none of the values that were there.
  setn_cmn-prepend :
      (v : Value Double) (idx : ℤ) (i : ℕ) (recycle : Bool)
      → position idx (length (x ∷ xs)) ≡ ok i
      → (opt' : Opt Double) × (setn_cmn same opt (some v) idx (inst_prepend recycle) true
          ≡ ok (opt', i))
        × (getn same opt' type (pos i) ≡ ok v)
        × (getn same opt' type (negsuc 0) ≡ fault)
  unfolding setn_cmn
  setn_cmn-prepend v idx i recycle at =
      let n = length-map_item (x ∷ xs) in
      let lt = position_lt idx (length xs) at in
      let (cells, put, l, first, last) =
        put_value-loses (map item (x ∷ xs)) i v (omega (arith, n, lt)) in
      let opt' : Opt Double = record opt { values = vals cells } in
      let k : length cells ≡ suc (suc (length xs)) = omega (arith, l, n) in
      (
        opt',
        rw
            (
              getn_cmn-plain same opt (map item (x ∷ xs)) (length xs) (some v) idx
                  (inst_prepend recycle) e n refl refl,
              at,
              e,
              grown-item (x ∷ xs),
              put,
            )
            refl,
        getn-cells same opt' type cells (suc (length xs)) (pos i) t refl k
            ∙ ap (λ r. r >>= λ j. deref (entry cells j))
                (position-pos i (suc (length xs)) (omega arith))
            ∙ ap deref first
            ∙ deref-item v,
        getn-cells same opt' type cells (suc (length xs)) (negsuc 0) t refl k
            ∙ ap (λ r. r >>= λ j. deref (entry cells j)) (position-last (suc (length xs)))
            ∙ ap deref (subst (λ j. entry cells j ≡ hole junk) (n) last)
            ∙ deref-junk,
      )

-- When the only value of an option has been taken away, the array that was freed is kept, and the
-- next value that is set is stored in it by `realloc`.
setn_cmn-released :
    {Double : Type 0} (same : Value Double → Value Double → Bool) (opt : Opt Double)
    (x : Value Double)
    → opt.values ≡ vals (item x ∷ [])
    → (opt' : Opt Double) × (unsetn_cmn same opt none (negsuc 0) inst_none ≡ ok (opt', 0))
      × (length (opt_vals opt'.values) ≡ 0)
      × ((v : Value Double) (over recycle : Bool)
          → setn_cmn same opt' (some v) (negsuc 0) (inst_append over recycle) true ≡ fault)
unfolding opt_vals unsetn_cmn setn_cmn take_value deref entry getn_cmn getn_marks place count grown
setn_cmn-released {Double} same opt x e =
    let opt' : Opt Double = record opt { values = released } in
    (opt', rw e refl, refl, λ v over recycle. refl)
