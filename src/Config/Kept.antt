-- ===== src/Config/Kept.antt =====
-- Values of an option (src/config.c): what is read after a value is set or appended.
use valiant.Prelude.{
  ℕ, suc, ◌<◌, ◌≡◌, refl, ap, ◌∙◌, Bool, true, some, List, [], ◌∷◌, ◌++◌, ◌==◌, if◌then◌else◌, map,
  length, length-append, length-set, set, arith,
}
use valiant.Prelude.Int.{ℤ, pos, negsuc}
use valiant.Config.Types.{
  ok, ◌>>=◌, ◌>>◌, item, Value, ValueType, same_value_type, vals, Opt, opt_vals,
}
use valiant.Config.Options.{grown, put_value, new_value, setn_cmn}
use valiant.Config.Access.{getn}
use valiant.Config.Positions.{position, getn_cmn-plain}
use valiant.Config.Stored.{
  inst_replace, value_at-end, value_at-append, value_at-set, value_at-set_self, position-last,
  position-pos, position_lt, inst_append, value_at, getn-plain, setn_cmn-append, length-map_item,
  map_item-set, destroyed-item,
}

module _ {Double : Type 0} (same : Value Double → Value Double → Bool) (opt : Opt Double)
    (type : ValueType) (x : Value Double) (xs : List (Value Double))
    (t : same_value_type opt.type type ≡ true) (e : opt.values ≡ vals (map item (x ∷ xs))) where
  -- A value that is set at an index that stands for a position is what is read at that index; it is
  -- read at that position, and at every other position what stood there.
  pub getn-setn_cmn :
      (v : Value Double) (idx : ℤ) (i : ℕ) (recycle : Bool)
      → position idx (length (x ∷ xs)) ≡ ok i
      → (opt' : Opt Double) × (setn_cmn same opt (some v) idx (inst_replace recycle) true
          ≡ ok (opt', i))
        × (getn same opt' type idx ≡ ok v)
        × ((j : ℕ)
            → j < length (x ∷ xs)
            → getn same opt' type (pos j) ≡ (if i == j then ok v else value_at (x ∷ xs) j))
  unfolding setn_cmn grown put_value new_value
  getn-setn_cmn v idx i recycle at =
      let ys = set (x ∷ xs) i v in
      let opt' : Opt Double = record opt { values = vals (map item ys) } in
      let lt = position_lt idx (length xs) at in
      let n : length ys ≡ suc (length xs) = length-set (x ∷ xs) i v in
      let searched =
        getn_cmn-plain same opt (map item (x ∷ xs)) (length xs) (some v) idx (inst_replace recycle)
          e (length-map_item (x ∷ xs)) refl refl in
      (
        opt',
        rw (searched, at, e, map_item-set (x ∷ xs) i v)
            (ap (λ r. r >> ok (opt', i)) (destroyed-item (x ∷ xs) i lt)),
        getn-plain same opt' type ys (length xs) idx t refl n
            ∙ ap (λ r. r >>= value_at ys) at
            ∙ value_at-set_self (x ∷ xs) i v lt,
        λ j h.
            getn-plain same opt' type ys (length xs) (pos j) t refl n
            ∙ ap (λ r. r >>= value_at ys) (position-pos j (length xs) h)
            ∙ value_at-set (x ∷ xs) i j v lt,
      )

module _ {Double : Type 0} (same : Value Double → Value Double → Bool) (opt : Opt Double)
    (type : ValueType) (xs : List (Value Double)) (t : same_value_type opt.type type ≡ true)
    (e : opt.values ≡ vals (map item xs)) where
  -- A value that is appended stands behind the others, which stay: it is read at the index -1 and at
  -- their number, and the others are read where they were.
  getn-setn_cmn_append :
      (v : Value Double) (over recycle : Bool)
      → (opt' : Opt Double) × (setn_cmn same opt (some v) (negsuc 0) (inst_append over recycle) true
          ≡ ok (opt', length xs))
        × (length (opt_vals opt'.values) ≡ suc (length xs))
        × (getn same opt' type (negsuc 0) ≡ ok v)
        × (getn same opt' type (pos (length xs)) ≡ ok v)
        × ((j : ℕ) → j < length xs → getn same opt' type (pos j) ≡ value_at xs j)
  unfolding opt_vals
  getn-setn_cmn_append v over recycle =
      let ys = xs ++ v ∷ [] in
      let n : length ys ≡ suc (length xs) = omega (arith, length-append xs (v ∷ [])) in
      let opt' : Opt Double = record opt { values = vals (map item ys) } in
      let read = λ (idx : ℤ). getn-plain same opt' type ys (length xs) idx t refl n in
      let at = λ (j : ℕ) (h : j < suc (length xs)).
        read (pos j) ∙ ap (λ r. r >>= value_at ys) (position-pos j (length xs) h) in
      (
        opt',
        setn_cmn-append same opt xs v over recycle e,
        length-map_item ys ∙ n,
        read (negsuc 0)
            ∙ ap (λ r. r >>= value_at ys) (position-last (length xs))
            ∙ value_at-end xs v,
        at (length xs) (omega arith) ∙ value_at-end xs v,
        λ j h. at j (omega arith) ∙ value_at-append xs (v ∷ []) j h,
      )
