-- ===== src/Config/Found.antt =====
-- Options that are looked up by the name that they were set with (src/config.c).
use valiant.Prelude.{
  ℕ, zero, suc, ◌-◌, ◌≤◌, ◌≡◌, inl, refl, sym, ap, subst, ◌∙◌, Bool, true, false, some, List, [],
  ◌∷◌, ◌++◌, map, ltb, Bytes, strcasecmp, tolower, length, set, take, take_all, replicate, All,
  arith, ==_iff,
}
use mathlib.Core.List.{map-append}
use valiant.Prelude.Int.{pos, negsuc}
use valiant.Config.Types.{
  ok, item, hole, junk, deref, entry, Inst, Flags, ValueType, type_none, type_opt, same_type,
}
use valiant.Config.Tree.{Config, name_of, body_of, type_of, opt_create, create}
use valiant.Config.Options.{count, advance, past, step_back, place}
use valiant.Config.Sections.{Key, nonempty, mark, sec_getn_cmn, insert_opt, sec_setn_cmn, sets}
use valiant.Config.Lookup.{
  inst_compare, opts_of, with_opts, key_of, sec_set, sec_setnopt, sec_getnopt,
}
use valiant.Config.Items.{appended_compared}
use valiant.Config.Stored.{length-map_item, set-end, map_item-append}
use valiant.Config.Counted.{marks_of-item, AreTyped, count_opts-count}
use valiant.Config.Inserted.{opts_of-with_opts, put_opt-insert}

pub strcasecmp_refl : (name : Bytes) → strcasecmp name name ≡ true
unfolding strcasecmp
strcasecmp_refl [] = refl
strcasecmp_refl (c ∷ name) = ground (arith, ==_iff (tolower c) (tolower c), strcasecmp_refl name)

opt_typed : same_type type_opt type_none ≡ false
unfolding same_type
opt_typed = refl

clash : {b : Bool} → b ≡ true → b ≡ false → ⊥
clash p q = cc

-- one option counts, behind `n` others
count-last : (n : ℕ) → count (replicate n false ++ true ∷ []) ≡ 1
unfolding count
count-last zero = refl
count-last (suc n) = count-last n

count-none : (n : ℕ) → count (replicate n false) ≡ 0
unfolding count
count-none zero = refl
count-none (suc n) = count-none n

advance-last : (n : ℕ) → advance 1 (replicate n false ++ true ∷ []) ≡ suc n
unfolding advance
advance-last zero = refl
advance-last (suc n) = ap suc (advance-last n)

past-first : past (pos 0) 1 ≡ 1
unfolding past
past-first = refl

-- the key of an option with the name
abbrev pub opt_key : Bytes → Key
opt_key name = record { name = name; type = type_opt }

insert_opt-end :
    {Double : Type 0} (os : List (Config Double)) (o : Config Double)
    → insert_opt (map item os) (length os) o ≡ map item (os ++ o ∷ [])
unfolding insert_opt
insert_opt-end os o =
    let last : ltb 0 (length (map item os) - length os) ≡ false =
      ground (arith, length-map_item os) in
    rw last (
      subst (λ k. set (map item os ++ hole junk ∷ []) k (item o) ≡ map item (os ++ o ∷ []))
        (length-map_item os)
        (set-end (map item os) (hole junk) (item o) ∙ sym (map_item-append os (o ∷ []))))

-- the last entry
entry-last {ℓ} :
    {A : Type ℓ} (os : List A) (o : A) → entry (map item (os ++ o ∷ [])) (length os) ≡ item o
unfolding entry
entry-last [] o = refl
entry-last (p ∷ os) o = entry-last os o

-- No option or section has the name, in whatever case.
abbrev pub IsUnused : {Double : Type 0} → Bytes → List (Config Double) → Type 0
IsUnused name os = All (λ o. strcasecmp (name_of o) name ≡ false) os

module _ {Double : Type 0} (name : Bytes) (named : nonempty name ≡ true) where
  marks-unused :
      (os : List (Config Double))
      → IsUnused name os
      → map (mark (opt_key name) true) os ≡ replicate (length os) false
  unfolding mark
  marks-unused [] h = refl
  marks-unused (o ∷ os) h = rw (named, h.0, marks-unused os h.1) refl

  typed-unused : (os : List (Config Double)) → IsUnused name os → AreTyped (opt_key name) os
  typed-unused [] h = tt
  typed-unused (o ∷ os) h = ((λ e. absurd (clash e h.0)), typed-unused os h.1)

  mark_self :
      (o : Config Double)
      → name_of o ≡ name
      → type_of o ≡ type_opt
      → mark (opt_key name) true o ≡ true
  unfolding mark same_type
  mark_self o n t = rw (named, n, strcasecmp_refl name, t) refl

  typed-found :
      (os : List (Config Double)) (o : Config Double)
      → IsUnused name os
      → type_of o ≡ type_opt
      → AreTyped (opt_key name) (os ++ o ∷ [])
  typed-found [] o h t = ((λ e. t), tt)
  typed-found (p ∷ os) o h t = ((λ e. absurd (clash e h.0)), typed-found os o h.1 t)

  -- The option with the name behind others: it is found.
  getn-found :
      (os : List (Config Double)) (o : Config Double)
      → IsUnused name os
      → name_of o ≡ name
      → type_of o ≡ type_opt
      → (inst : Inst) → inst.compare ≡ true
      → inst.set ≡ false
      → inst.append ≡ false
      → inst.prepend ≡ false
      → sec_getn_cmn (map item (os ++ o ∷ [])) (opt_key name) (pos 0) inst ≡ ok (length os)
  unfolding sec_getn_cmn place step_back sets same_type
  getn-found os o h n t inst c s a p =
      let key = opt_key name in
      let all = os ++ o ∷ [] in
      let marked : mark key true o ≡ true = mark_self o n t in
      let marks : map (mark key true) all ≡ replicate (length os) false ++ true ∷ [] =
        map-append (mark key true) os (o ∷ [])
        ∙ ap (λ l. l ++ mark key true o ∷ []) (marks-unused os h)
        ∙ ap (λ b. replicate (length os) false ++ b ∷ []) marked in
      let counted =
        count_opts-count key opt_typed named type_none all (inl refl) (typed-found os o h t) in
      rw
        (
          c,
          counted,
          marks,
          count-last (length os),
          s,
          a,
          p,
          marks_of-item key true all,
          marks,
          past-first,
          advance-last (length os),
        )
        refl

  -- Without the name the position is behind the last option.
  getn-unused :
      (os : List (Config Double))
      → IsUnused name os
      → sec_getn_cmn
          (map item os)
          (opt_key name)
          (negsuc 0)
          (record appended_compared { recycle = true; set = true })
        ≡ ok (length os)
  unfolding sec_getn_cmn place same_type
  getn-unused os h =
      let key = opt_key name in
      let counted =
        count_opts-count key opt_typed named type_none os (inl refl) (typed-unused os h) in
      rw
        (
          counted,
          marks-unused os h,
          count-none (length os),
          marks_of-item key true os,
          length-map_item os,
        )
        refl

  -- An option that is added at the end (index -1, the flags of the parser), whose name is not empty,
  -- has at most 31 characters, and is not that of an option or a section that is there, is put behind
  -- all others, which stay as they are; it is what is found by its name.
  pub sec_getnopt-sec_setnopt :
      (sec : Config Double) (os : List (Config Double)) (flags : Flags)
      → opts_of (body_of sec) ≡ ok (map item os)
      → length name ≤ 31
      → IsUnused name os
      → (sec' o : Config Double) × (sec_setnopt sec name flags (negsuc 0) appended_compared true
          ≡ ok (sec', length os))
        × (opts_of (body_of sec') ≡ ok (map item (os ++ o ∷ [])))
        × (sec_getnopt sec' (some name) (pos 0) inst_compare ≡ ok (length os, o))
        × (name_of o ≡ name)
        × (type_of o ≡ type_opt)
  unfolding sec_setnopt sec_set sec_setn_cmn opt_create create name_of type_of body_of sec_getnopt
      key_of deref
  sec_getnopt-sec_setnopt sec os flags opts short fresh =
      let o : Config Double = opt_create name flags ValueType.none_type in
      let cells = map item os in
      let whole : insert_opt cells (length os) o ≡ map item (os ++ o ∷ []) = insert_opt-end os o in
      let kept : take 31 name ≡ name = take_all 31 name short in
      let kept' : take 32 name ≡ name = take_all 32 name (omega (arith, short)) in
      let sec' = with_opts sec (insert_opt cells (length os) o) in
      let opts' : opts_of (body_of sec') ≡ ok (map item (os ++ o ∷ [])) =
        opts_of-with_opts sec cells (insert_opt cells (length os) o) opts ∙ ap ok whole in
      (
        sec',
        o,
        rw (opts, kept, getn-unused os fresh, put_opt-insert cells (length os)) refl,
        opts',
        rw
            (
              opts',
              kept',
              getn-found os o fresh kept refl inst_compare refl refl refl refl,
              entry-last os o,
            )
            refl,
        kept,
        refl,
      )
