-- ===== src/Config/Stored.antt =====
-- What the values of an option come to (src/config.c): setting, reading and taking away.
use valiant.Prelude.{
  ℕ, zero, suc, ◌-◌, ◌<◌, ◌≡◌, refl, sym, ap, subst, fun_ext, ◌∙◌, Bool, true, false, Option, none,
  some, List, [], ◌∷◌, ◌++◌, ◌==◌, ltb, if◌then◌else◌, map, length, set, length-append, arith,
}
use valiant.Prelude.Int.{ℤ, pos, negsuc}
use valiant.Config.Types.{
  Outcome, ok, fault, ◌>>=◌, Cell, item, hole, null, junk, freed, deref, entry, Inst, inst_none,
  Value, ValueType, same_value_type, vals, Opt, opt_vals,
}
use valiant.Config.Options.{
  count, past, place, getn_marks, getn_cmn, grown, destroyed, put_value, setn_cmn,
}
use valiant.Config.Access.{expect_type, getn}
use valiant.Config.Positions.{position, getn_cmn-plain, count-replicate, advance-replicate}

-- the flags with append on, and prepend and compare off
abbrev pub inst_append : (over recycle : Bool) → Inst
inst_append over recycle = record {
  set = over;
  prepend = false;
  append = true;
  compare = false;
  recycle = recycle;
}

-- the flags of a setter that is given none
abbrev pub inst_replace : (recycle : Bool) → Inst
inst_replace recycle = record {
  set = true;
  prepend = false;
  append = false;
  compare = false;
  recycle = recycle;
}

-- the flags of a setter that is given prepend
abbrev pub inst_prepend : (recycle : Bool) → Inst
inst_prepend recycle = record {
  set = true;
  prepend = true;
  append = false;
  compare = false;
  recycle = recycle;
}

-- the value at `i`; there is none behind the end
abbrev pub value_at {ℓ} : {A : Type ℓ} → List A → ℕ → Outcome A
value_at [] i = fault
value_at (x ∷ xs) zero = ok x
value_at (x ∷ xs) (suc i) = value_at xs i

module _ {ℓ} {A : Type ℓ} where
  pub length-map_item : (xs : List A) → length (map item xs) ≡ length xs
  length-map_item [] = refl
  length-map_item (x ∷ xs) = ap suc (length-map_item xs)

  pub entry-map_item : (xs : List A) (i : ℕ) → deref (entry (map item xs) i) ≡ value_at xs i
  unfolding deref entry
  entry-map_item [] i = refl
  entry-map_item (x ∷ xs) zero = refl
  entry-map_item (x ∷ xs) (suc i) = entry-map_item xs i

  pub map_item-append : (xs ys : List A) → map item (xs ++ ys) ≡ map item xs ++ map item ys
  map_item-append [] ys = refl
  map_item-append (x ∷ xs) ys = ap (λ l. item x ∷ l) (map_item-append xs ys)

  pub map_item-set :
      (xs : List A) (i : ℕ) (v : A) → set (map item xs) i (item v) ≡ map item (set xs i v)
  map_item-set [] i v = refl
  map_item-set (x ∷ xs) zero v = refl
  map_item-set (x ∷ xs) (suc i) v = ap (λ l. item x ∷ l) (map_item-set xs i v)

  pub set-end : (xs : List A) (c d : A) → set (xs ++ c ∷ []) (length xs) d ≡ xs ++ d ∷ []
  set-end [] c d = refl
  set-end (x ∷ xs) c d = ap (λ l. x ∷ l) (set-end xs c d)

module _ {ℓ} {A : Type ℓ} where
  pub value_at-end : (xs : List A) (v : A) → value_at (xs ++ v ∷ []) (length xs) ≡ ok v
  value_at-end [] v = refl
  value_at-end (x ∷ xs) v = value_at-end xs v

  pub value_at-append :
      (xs ys : List A) (i : ℕ) → i < length xs → value_at (xs ++ ys) i ≡ value_at xs i
  value_at-append [] ys i h = elim h [ ]
  value_at-append (x ∷ xs) ys zero h = refl
  value_at-append (x ∷ xs) ys (suc i) h = value_at-append xs ys i (omega arith)

  pub value_at-lt : (xs : List A) (i : ℕ) → i < length xs → (w : A) × (value_at xs i ≡ ok w)
  value_at-lt [] i h = elim h [ ]
  value_at-lt (x ∷ xs) zero h = (x, refl)
  value_at-lt (x ∷ xs) (suc i) h = value_at-lt xs i (omega arith)

  pub deref-junk : deref {A = A} (hole junk) ≡ fault
  unfolding deref
  deref-junk = refl

  pub deref-item : (a : A) → deref (item a) ≡ ok a
  unfolding deref
  deref-item a = refl

  pub deref-freed : deref {A = A} (hole freed) ≡ fault
  unfolding deref
  deref-freed = refl

  pub value_at-set_self :
      (xs : List A) (i : ℕ) (v : A) → i < length xs → value_at (set xs i v) i ≡ ok v
  value_at-set_self [] i v h = elim h [ ]
  value_at-set_self (x ∷ xs) zero v h = refl
  value_at-set_self (x ∷ xs) (suc i) v h = value_at-set_self xs i v (omega arith)

  pub value_at-set :
      (xs : List A) (i j : ℕ) (v : A)
      → i < length xs
      → value_at (set xs i v) j ≡ (if i == j then ok v else value_at xs j)
  value_at-set [] i j v h = elim h [ ]
  value_at-set (x ∷ xs) zero zero v h = ground arith
  value_at-set (x ∷ xs) zero (suc j) v h = ground arith
  value_at-set (x ∷ xs) (suc i) zero v h = ground arith
  value_at-set (x ∷ xs) (suc i) (suc j) v h = ground (arith, value_at-set xs i j v)

pub position-last : (n : ℕ) → position (negsuc 0) (suc n) ≡ ok n
position-last n = ground arith

pub position_lt : (idx : ℤ) (m : ℕ) {i : ℕ} → position idx (suc m) ≡ ok i → i < suc m
position_lt (pos j) m e = ground arith
position_lt (negsuc k) m e = ground arith

pub position-pos : (j n : ℕ) → j < suc n → position (pos j) (suc n) ≡ ok j
position-pos j n h = ground arith

pub past-last : (n : ℕ) → past (negsuc 0) (suc n) ≡ suc n
unfolding past
past-last n = ground arith

module _ {Double : Type 0} where
  pub grown-item :
      (xs : List (Value Double))
      → grown (vals (map item xs)) true ≡ ok (map item xs ++ hole null ∷ [])
  unfolding grown
  grown-item [] = refl
  grown-item (x ∷ xs) = refl

  -- A value that is replaced is destroyed.
  pub destroyed-item :
      (xs : List (Value Double)) (i : ℕ)
      → i < length xs
      → destroyed false (entry (map item xs) i) ≡ ok tt
  unfolding destroyed entry
  destroyed-item [] i h = elim h [ ]
  destroyed-item (x ∷ xs) zero h = refl
  destroyed-item (x ∷ xs) (suc i) h = destroyed-item xs i (omega arith)

  put_value-end :
      (xs : List (Value Double)) (v : Value Double)
      → put_value (map item xs ++ hole null ∷ []) true (length xs) v ≡ map item (xs ++ v ∷ [])
  unfolding put_value
  put_value-end xs v =
      let n = length (map item xs ++ hole null ∷ []) in
      let last : ltb (length xs) (n - 1) ≡ false =
        ground (arith, length-append (map item xs) (hole null ∷ []), length-map_item xs) in
      rw last (
        subst (λ k. set (map item xs ++ hole null ∷ []) k (item v) ≡ map item (xs ++ v ∷ []))
          (length-map_item xs)
          (set-end (map item xs) (hole null) (item v) ∙ sym (map_item-append xs (v ∷ []))))

module _ {Double : Type 0} (same : Value Double → Value Double → Bool) where
  -- What is read at an index among cells.
  pub getn-cells :
      (opt : Opt Double) (type : ValueType) (cells : List (Cell (Value Double))) (n : ℕ) (idx : ℤ)
      → same_value_type opt.type type ≡ true
      → opt.values ≡ vals cells
      → length cells ≡ suc n
      → getn same opt type idx ≡ (position idx (suc n) >>= λ i. deref (entry cells i))
  unfolding getn expect_type opt_vals
  getn-cells opt type cells n idx t e l =
      rw (t, getn_cmn-plain same opt cells n none idx inst_none e l refl refl, e) refl

  pub getn-plain :
      (opt : Opt Double) (type : ValueType) (xs : List (Value Double)) (n : ℕ) (idx : ℤ)
      → same_value_type opt.type type ≡ true
      → opt.values ≡ vals (map item xs)
      → length xs ≡ suc n
      → getn same opt type idx ≡ (position idx (suc n) >>= value_at xs)
  getn-plain opt type xs n idx t e l =
      getn-cells opt type (map item xs) n idx t e (length-map_item xs ∙ l)
      ∙ ap (λ f. position idx (suc n) >>= f) (fun_ext (entry-map_item xs))

  -- The position behind the last value.
  pub getn_cmn-append :
      (opt : Opt Double) (xs : List (Value Double)) (val : Option (Value Double))
      (over recycle : Bool)
      → opt.values ≡ vals (map item xs)
      → getn_cmn same opt val (negsuc 0) (inst_append over recycle) ≡ ok (length xs)
  unfolding getn_cmn getn_marks opt_vals place
  getn_cmn-append opt [] val over recycle e = rw (e, count) refl
  getn_cmn-append opt (x ∷ xs) val over recycle e =
      let n = length (map item (x ∷ xs)) in
      rw (e, count-replicate n, past-last (length (map item xs)))
        (ap ok (advance-replicate n n (omega arith) ∙ length-map_item (x ∷ xs)))

  pub setn_cmn-append :
      (opt : Opt Double) (xs : List (Value Double)) (v : Value Double) (over recycle : Bool)
      → opt.values ≡ vals (map item xs)
      → setn_cmn same opt (some v) (negsuc 0) (inst_append over recycle) true
        ≡ ok (record opt { values = vals (map item (xs ++ v ∷ [])) }, length xs)
  unfolding setn_cmn destroyed
  setn_cmn-append opt xs v over recycle e =
      rw (getn_cmn-append opt xs (some v) over recycle e, e, grown-item xs, put_value-end xs v) refl
