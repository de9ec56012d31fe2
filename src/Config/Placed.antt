-- ===== src/Config/Placed.antt =====
-- Where `vt_config_sec_setn_cmn` puts an option or a section (src/config.c).
use valiant.Prelude.{
  ℕ, suc, ◌≤◌, ◌<◌, ◌≡◌, ◌≢◌, inl, refl, sym, ap, subst, ◌∙◌, true, false, Option, none, List, [],
  ◌∷◌, ◌++◌, map, lt→ltb, Bytes, length, length-append, take, arith,
}
use mathlib.Core.List.{map-append}
use valiant.Prelude.Int.{ℤ, negsuc}
use valiant.Config.Types.{
  ok, Cell, item, hole, junk, entry, Inst, Flags, type_none, type_sec, type_opt, same_type,
}
use valiant.Config.Tree.{Config, name_of, body_of, type_of, sec_create, create}
use valiant.Config.Options.{count, advance, step_back, place}
use valiant.Config.Sections.{
  Key, nonempty, count_opts, mark, sec_getn_cmn, insert_opt, sec_setn_cmn,
}
use valiant.Config.Lookup.{opts_of, with_opts, key_of, sec_set, sec_setnsec, sec_getnopt}
use valiant.Config.Items.{appended_compared}
use valiant.Config.Stored.{length-map_item, past-last}
use valiant.Config.Counted.{
  >>=-eq_ok, count_opts-junk, marks_of-item, AreTyped, count_opts-count, advance-count,
}
use valiant.Config.Inserted.{opts_of-with_opts, insert_opt-junk, insert_opt-entries, put_opt-insert}

module _ {Double : Type 0} where
  sec_getn_cmn-junk :
      (l : List (Cell (Config Double))) (key : Key) (idx : ℤ) (inst : Inst) (at : ℕ)
      → sec_getn_cmn (l ++ hole junk ∷ []) key idx inst ≢ ok at
  unfolding sec_getn_cmn
  sec_getn_cmn-junk l key idx inst at h =
      let (n, g, f) = >>=-eq_ok (count_opts key inst.compare type_none (l ++ hole junk ∷ [])) _ h in
      count_opts-junk key inst.compare type_none l n g

  -- No option is found among entries of which the last is indeterminate.
  sec_getnopt-junk :
      (sec : Config Double) (l : List (Cell (Config Double)))
      → opts_of (body_of sec) ≡ ok (l ++ hole junk ∷ [])
      → (name : Option Bytes) (idx : ℤ) (inst : Inst) (r : ℕ × Config Double)
      → sec_getnopt sec name idx inst ≢ ok r
  unfolding sec_getnopt
  sec_getnopt-junk sec l opts name idx inst r h =
      let key = key_of type_opt name inst.compare in
      let h' = rw opts at h in
      let (at, f, h'') =
        >>=-eq_ok (sec_getn_cmn (l ++ hole junk ∷ []) key idx (record inst { compare = true })) _
          h' in
      sec_getn_cmn-junk l key idx (record inst { compare = true }) at f

length-map {ℓ κ} : {A : Type ℓ} {B : Type κ} (f : A → B) (l : List A) → length (map f l) ≡ length l
length-map f [] = refl
length-map f (x ∷ l) = ap suc (length-map f l)

sec_typed : same_type type_sec type_none ≡ false
unfolding same_type
sec_typed = refl

-- The key of a section that is made with the name.
abbrev pub sec_key : Bytes → Key
sec_key name = record { name = take 31 name; type = type_sec }

-- What `vt_config_sec_setn_cmn` adds to the flags of the parser.
abbrev parser_inst : Inst
parser_inst = record appended_compared { recycle = true; set = true }

module _ {Double : Type 0} (name : Bytes) (os : List (Config Double)) (last : Config Double) where
  getn-repeated :
      nonempty (take 31 name) ≡ true
      → AreTyped (sec_key name) (os ++ last ∷ [])
      → (m : ℕ) → count (map (mark (sec_key name) true) (os ++ last ∷ [])) ≡ suc m
      → mark (sec_key name) true last ≡ false
      → (at : ℕ) × (sec_getn_cmn (map item (os ++ last ∷ [])) (sec_key name) (negsuc 0) parser_inst
          ≡ ok at)
        × (at ≤ length os)
  unfolding sec_getn_cmn place step_back same_type
  getn-repeated named typed m counted unmarked =
      let all = os ++ last ∷ [] in
      let marks = map (mark (sec_key name) true) all in
      let n = count_opts-count (sec_key name) sec_typed named type_none all (inl refl) typed in
      let split : marks ≡ map (mark (sec_key name) true) os ++ false ∷ [] =
        map-append (mark (sec_key name) true) os (last ∷ [])
        ∙ ap (λ t. map (mark (sec_key name) true) os ++ t ∷ []) unmarked in
      let bound : advance (suc m) marks ≤ length os =
        subst (λ k. advance k marks ≤ length os) counted
          (subst (λ l. advance (count l) l ≤ length os) (sym split)
            (subst
              (λ k.
                advance (count (map (mark (sec_key name) true) os ++ false ∷ []))
                  (map (mark (sec_key name) true) os ++ false ∷ [])
                ≤ k)
              (length-map (mark (sec_key name) true) os)
              (advance-count (map (mark (sec_key name) true) os)))) in
      (
        advance (suc m) marks,
        rw
            (
              n,
              counted,
              lt→ltb 0 (suc m) (omega arith),
              marks_of-item (sec_key name) true all,
              past-last m,
            )
            refl,
        bound,
      )

  -- A section that is repeated, with an option of another name behind the last section with its
  -- name, is put in the array at a place before its end, and the entries before that place stay. The
  -- entries behind it are moved to the front by one, so the one that stood there is lost with the one
  -- behind it, and the last entry, of an array that is longer by one, is indeterminate: from then on
  -- no option is found, whatever its name. (The index is -1 and the flags are those of the parser; the
  -- name is not empty, and only sections have it.)
  pub sec_setnsec-repeated :
      (sec : Config Double) (flags : Flags)
      → opts_of (body_of sec) ≡ ok (map item (os ++ last ∷ []))
      → nonempty (take 31 name) ≡ true
      → AreTyped (sec_key name) (os ++ last ∷ [])
      → (m : ℕ) → count (map (mark (sec_key name) true) (os ++ last ∷ [])) ≡ suc m
      → mark (sec_key name) true last ≡ false
      → (sec' : Config Double) × (cells : List (Cell (Config Double))) × (at : ℕ) × (sec_setnsec sec
            name flags
            (negsuc 0)
            appended_compared
            true
          ≡ ok (sec', at))
        × (opts_of (body_of sec') ≡ ok cells)
        × (at ≤ length os)
        × (length cells ≡ suc (suc (length os)))
        × ((j : ℕ) → j < at → entry cells j ≡ entry (map item (os ++ last ∷ [])) j)
        × (entry cells at ≡ item (sec_create name flags none))
        × ((j : ℕ)
            → at < j
            → j ≤ length os
            → entry cells j ≡ entry (map item (os ++ last ∷ []) ++ hole junk ∷ []) (suc j))
        × (entry cells (suc (length os)) ≡ hole junk)
        × ((other : Option Bytes) (idx : ℤ) (inst : Inst) (r : ℕ × Config Double)
            → sec_getnopt sec' other idx inst ≢ ok r)
  unfolding sec_setnsec sec_set sec_setn_cmn sec_create create name_of type_of body_of
  sec_setnsec-repeated sec flags opts named typed m counted unmarked =
      let all = map item (os ++ last ∷ []) in
      let o : Config Double = sec_create name flags none in
      let (at, found, le) = getn-repeated named typed m counted unmarked in
      let n : length all ≡ suc (length os) =
        omega (arith, length-map_item (os ++ last ∷ []), length-append os (last ∷ [])) in
      let lt : at < length all = omega (arith, le, n) in
      let (l, e) = insert_opt-junk all at o lt in
      let (len, before, new, moved, end) = insert_opt-entries all at o (length os) n le in
      let opts' : opts_of (body_of (with_opts sec (insert_opt all at o)))
          ≡ ok (insert_opt all at o) =
        opts_of-with_opts sec all (insert_opt all at o) opts in
      (
        with_opts sec (insert_opt all at o),
        insert_opt all at o,
        at,
        rw (opts, found, put_opt-insert all at o) refl,
        opts',
        le,
        len,
        before,
        new,
        moved,
        end,
        λ other idx inst r h.
            sec_getnopt-junk (with_opts sec (insert_opt all at o)) l (opts' ∙ ap ok e) other idx
              inst r h,
      )
