-- ===== src/Config/Added.antt =====
-- The end of the array, where `vt_config_defaults` puts what it adds (src/config.c).
use valiant.Prelude.{
  ℕ, zero, suc, ltb, ◌&&◌, ◌-◌, ◌≡◌, refl, sym, ap, subst, ◌∙◌, Bool, true, false, List, [], ◌∷◌,
  ◌++◌, if◌then◌else◌, length, replicate, arith,
}
use valiant.Prelude.Int.{negsuc}
use valiant.Config.Types.{
  Outcome, ok, err, ◌>>=◌, Cell, item, hole, junk, deref, ConfigType, type_none, type_opt,
  same_type, Inst,
}
use valiant.Config.Tree.{
  Config, config, body_none, body_file, body_sec, body_opt, name_of, body_of, type_of,
}
use valiant.Config.Options.{step_back, place}
use valiant.Config.Sections.{
  Key, counts, count_opts, mark, marks_of, sec_getn_cmn, put_opt, insert_opt, sec_setn_cmn, sets,
}
use valiant.Config.Lookup.{opts_of, with_opts}
use valiant.Config.Defaults.{defaults_inst, add_opt}
use valiant.Config.Positions.{advance-replicate}
use valiant.Config.Stored.{past-last, set-end}
use valiant.Config.Counted.{>>=-eq_ok}
use valiant.Config.Inserted.{opts_of-with_opts, put_opt-insert}

else_ok : {A : Type 0} (b : Bool) (r : Outcome A) (a : A) → (if b then err else r) ≡ ok a → r ≡ ok a
else_ok true r a h = cc
else_ok false r a h = h

place-all :
    (n : ℕ) (inst : Inst) → inst.append ≡ true → place n n (replicate n true) (negsuc 0) inst ≡ ok n
unfolding place step_back
place-all zero inst a = rw a refl
place-all (suc n) inst a =
    rw (a, past-last n) (ap ok (advance-replicate (suc n) (suc n) (omega arith)))

module _ {Double : Type 0} where
  counts-all :
      (key : Key) (seen : ConfigType) (o : Config Double) (m : Bool) (seen' : ConfigType)
      → counts key false seen o ≡ ok (m, seen')
      → m ≡ true
  unfolding counts
  counts-all key seen o m seen' h = ground arith

  count_opts-all :
      (key : Key) (seen : ConfigType) (cells : List (Cell (Config Double))) (n : ℕ)
      → count_opts key false seen cells ≡ ok n
      → n ≡ length cells
  unfolding count_opts
  count_opts-all key seen [] n h = cc
  count_opts-all key seen (c ∷ cells) n h =
      let (o, d, h1) = >>=-eq_ok (deref c) _ h in
      let ((m, seen'), e, h2) = >>=-eq_ok (counts key false seen o) _ h1 in
      let (n', f, h3) = >>=-eq_ok (count_opts key false seen' cells) _ h2 in
      let all = count_opts-all key seen' cells n' f in
      let one = counts-all key seen o m seen' e in
      let h4 : ok (suc n') ≡ ok n = rw one at h3 in
      let last : suc n' ≡ n = cc in omega (arith, all, last)

  marks_of-all :
      (key : Key) (cells : List (Cell (Config Double))) (marks : List Bool)
      → marks_of key false cells ≡ ok marks
      → marks ≡ replicate (length cells) true
  unfolding marks_of mark
  marks_of-all key [] marks h = cc
  marks_of-all key (c ∷ cells) marks h =
      let (o, d, h1) = >>=-eq_ok (deref c) _ h in
      let (rest, e, h2) = >>=-eq_ok (marks_of key false cells) _ h1 in
      let all = marks_of-all key cells rest e in
      let last : true ∷ rest ≡ marks = cc in sym last ∙ ap (λ l. true ∷ l) all

  sec_getn_cmn-all :
      (cells : List (Cell (Config Double))) (key : Key) (inst : Inst) (at : ℕ)
      → inst.compare ≡ false
      → inst.append ≡ true
      → sec_getn_cmn cells key (negsuc 0) inst ≡ ok at
      → at ≡ length cells
  unfolding sec_getn_cmn
  sec_getn_cmn-all cells key inst at c a h =
      let (n, e, h1) = >>=-eq_ok (count_opts key inst.compare type_none cells) _ h in
      let exists = ltb 0 n && (same_type key.type type_opt && inst.compare && sets inst) in
      let (marks, f, h2) =
        >>=-eq_ok (if exists then err else marks_of key inst.compare cells) _ h1 in
      let all : n ≡ length cells =
        count_opts-all key type_none cells n
          (subst (λ b. count_opts key b type_none cells ≡ ok n) c e) in
      let marked : marks ≡ replicate (length cells) true =
        marks_of-all key cells marks
          (subst (λ b. marks_of key b cells ≡ ok marks) c (else_ok exists _ marks f)) in
      let placed : place n (length cells) marks (negsuc 0) inst ≡ ok (length cells) =
        subst (λ k. place k (length cells) marks (negsuc 0) inst ≡ ok (length cells)) (sym all)
          (subst (λ l. place (length cells) (length cells) l (negsuc 0) inst ≡ ok (length cells))
            (sym marked) (place-all (length cells) inst a)) in
      cc

  pub name_of-with_opts :
      (sec : Config Double) (cells old : List (Cell (Config Double)))
      → opts_of (body_of sec) ≡ ok old
      → name_of (with_opts sec cells) ≡ name_of sec
  unfolding with_opts name_of opts_of body_of
  name_of-with_opts (config name flags l c body_none) cells old h = refl
  name_of-with_opts (config name flags l c (body_opt opt)) cells old h = refl
  name_of-with_opts (config name flags l c (body_file was)) cells old h = refl
  name_of-with_opts (config name flags l c (body_sec title was)) cells old h = refl

  insert_opt-end :
      (cells : List (Cell (Config Double))) (o : Config Double)
      → insert_opt cells (length cells) o ≡ cells ++ item o ∷ []
  unfolding insert_opt
  insert_opt-end cells o =
      let last : ltb 0 (length cells - length cells) ≡ false = ground arith in
      rw last (set-end cells (hole junk) (item o))

  pub add_opt-end :
      (sec o sec' : Config Double) (cells : List (Cell (Config Double)))
      → opts_of (body_of sec) ≡ ok cells
      → add_opt sec o ≡ ok sec'
      → (opts_of (body_of sec') ≡ ok (cells ++ item o ∷ [])) × (name_of sec' ≡ name_of sec)
  unfolding add_opt sec_setn_cmn
  add_opt-end sec o sec' cells opts h =
      let key : Key = record { name = name_of o; type = type_of o } in
      let h1 = rw opts at h in
      let ((cells', at), e, h2) =
        >>=-eq_ok (sec_setn_cmn cells o (negsuc 0) defaults_inst true) _ h1 in
      let (at', f, e1) = >>=-eq_ok (sec_getn_cmn cells key (negsuc 0) defaults_inst) _ e in
      let all = sec_getn_cmn-all cells key defaults_inst at' refl refl f in
      let e2 : (put_opt cells true at' o >>= λ c. ok (c, at')) ≡ ok (cells', at) = e1 in
      let put : (put_opt cells true at' o) ≡ ok (cells ++ item o ∷ []) =
        put_opt-insert cells at' o
        ∙ ap ok (
            subst (λ k. insert_opt cells k o ≡ cells ++ item o ∷ []) (sym all)
              (insert_opt-end cells o)) in
      let e3 : ok (cells ++ item o ∷ [], at') ≡ ok (cells', at) = rw put at e2 in
      let is : cells ++ item o ∷ [] ≡ cells' = cc in
      let made : with_opts sec cells' ≡ sec' = cc in
      let held = opts_of-with_opts sec cells cells' opts in
      (
        subst (λ s. opts_of (body_of s) ≡ ok (cells ++ item o ∷ [])) made (held ∙ ap ok (sym is)),
        ap name_of (sym made) ∙ name_of-with_opts sec cells' cells opts,
      )
