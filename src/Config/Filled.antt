-- ===== src/Config/Filled.antt =====
-- The options that are there after `vt_config_defaults` (src/config.c).
use valiant.Prelude.{
  ℕ, ◌≤◌, ◌≡◌, inl, inr, refl, sym, ap, subst, ◌∙◌, Bool, true, Option, none, some, List, [], ◌∷◌,
  ◌++◌, if◌then◌else◌, Bytes, length, set, take, Bool-cases,
}
use valiant.Config.Types.{ok, Cell, item, Flags, Value, ValueType}
use valiant.Config.Tree.{
  Config, def, DefBody, def_opt, def_sec, Defs, def_end, def_next, name_of, body_of, create,
  opt_create, sec_create,
}
use valiant.Config.Lookup.{opts_of, with_opts, opt_of, with_opt}
use valiant.Config.Items.{same_name, update_opt}
use valiant.Config.Defaults.{
  sec_flags, find_opt, issec, set_default, default_opt, defaults, default_def, default_body,
  defaults_of,
}
use valiant.Config.Counted.{>>=-eq_ok}
use valiant.Config.Inserted.{opts_of-with_opts}
use valiant.Config.Named.{Holds, Stands}
use valiant.Config.Added.{add_opt-end, name_of-with_opts}
use valiant.Config.Rounds.{
  ok_inj, created, no_fault, made_name, stays, AreShort, AreHeld, Keeps, added, updated, remains,
  made_opts, found_lem,
}

module _ {Double : Type 0} (same : Value Double → Value Double → Bool) where
  default_opt-name_of :
      (name : Bytes) (flags : Flags) (type : ValueType) (v : Value Double) (o : Config Double)
      → default_opt same name flags type v ≡ ok o
      → name_of o ≡ take 31 name
  unfolding default_opt opt_create create name_of with_opt opt_of
  default_opt-name_of name flags type v o h =
      let ((opt', at), e, h1) =
        >>=-eq_ok (set_default same _ (if flags.nodefault then ValueType.none_type else type) v) _
          h in
      ap name_of (sym (ok_inj h1))

  -- A section keeps its name while its defaults are provided.
  body-name_of :
      (sec : Config Double) (name : Bytes) (flags : Flags) (hit : Option (ℕ × Config Double))
      (body : DefBody Double) (sec' : Config Double) (cells : List (Cell (Config Double)))
      → opts_of (body_of sec) ≡ ok cells
      → default_body same sec name flags hit body ≡ ok sec'
      → (cells' : List (Cell (Config Double))) × (opts_of (body_of sec') ≡ ok cells')
        × (name_of sec' ≡ name_of sec)
  unfolding default_body update_opt
  body-name_of sec name flags (some (at, o)) (def_sec title defs) sec' cells opts h =
      elim (Bool-cases (issec (body_of o))) [
        | inl e ↦
            let (c, f, h1) = >>=-eq_ok (opts_of (body_of o)) _ (rw e at h) in
            let (o', g, h2) = >>=-eq_ok (defaults same (length c) o defs) _ h1 in
            let made : ok (with_opts sec (set cells at (item o'))) ≡ ok sec' = rw opts at h2 in
            let is = ok_inj made in
            (
              set cells at (item o'),
              subst (λ r. opts_of (body_of r) ≡ ok (set cells at (item o'))) is
                  (opts_of-with_opts sec cells (set cells at (item o')) opts),
              ap name_of (sym is) ∙ name_of-with_opts sec (set cells at (item o')) cells opts,
            )
        | inr e ↦ stays sec sec' cells opts (rw e at h)
      ]
  body-name_of sec name flags none (def_sec title defs) sec' cells opts h =
      let (o, g, h1) =
        >>=-eq_ok (defaults same 0 (sec_create name (sec_flags flags) none) defs) _ h in
      let (held, named) = add_opt-end sec o sec' cells opts h1 in
      (cells ++ item o ∷ [], held, named)
  body-name_of sec name flags (some (at, o)) (def_opt dquot squot type v) sec' cells opts h =
      elim (Bool-cases (issec (body_of o))) [
        | inl e ↦ absurd (no_fault (rw e at h))
        | inr e ↦ stays sec sec' cells opts (rw e at h)
      ]
  body-name_of sec name flags none (def_opt dquot squot type v) sec' cells opts h =
      let (o, g, h1) = >>=-eq_ok (default_opt same name flags type v) _ h in
      let (held, named) = add_opt-end sec o sec' cells opts h1 in
      (cells ++ item o ∷ [], held, named)

  defaults-name_of :
      (nopts : ℕ) (sec : Config Double) (defs : Defs Double) (sec' : Config Double)
      (cells : List (Cell (Config Double)))
      → opts_of (body_of sec) ≡ ok cells
      → defaults same nopts sec defs ≡ ok sec'
      → name_of sec' ≡ name_of sec
  unfolding defaults
  defaults-name_of nopts sec def_end sec' cells opts h = ap name_of (sym (ok_inj h))
  defaults-name_of nopts sec (def_next (def name flags body check) defs) sec' cells opts h =
      let (sec1, g, h1) = >>=-eq_ok (default_def same nopts sec (def name flags body check)) _ h in
      let (c, e, g1) = >>=-eq_ok (opts_of (body_of sec)) _ g in
      let (hit, f, g2) = >>=-eq_ok (find_opt flags.nocase name 0 (take nopts c)) _ g1 in
      let (cells', o', n) = body-name_of sec name flags hit body sec1 cells opts g2 in
      defaults-name_of nopts sec1 defs sec' cells' o' h1 ∙ n

  -- What a round finds or adds has the name of the definition.
  body-held :
      (sec : Config Double) (name : Bytes) (flags : Flags) (hit : Option (ℕ × Config Double))
      (body : DefBody Double) (sec' : Config Double) (cells : List (Cell (Config Double)))
      → opts_of (body_of sec) ≡ ok cells
      → length name ≤ 31
      → ((at : ℕ) (o : Config Double)
          → hit ≡ some (at, o)
          → Stands o at cells × (same_name flags.nocase (name_of o) name ≡ true))
      → default_body same sec name flags hit body ≡ ok sec'
      → (cells' : List (Cell (Config Double))) × (opts_of (body_of sec') ≡ ok cells')
        × (name_of sec' ≡ name_of sec)
        × Keeps cells cells'
        × Holds flags.nocase name cells'
  unfolding default_body
  body-held sec name flags (some (at, o)) (def_sec title defs) sec' cells opts short spec h =
      elim (Bool-cases (issec (body_of o))) [
        | inl e ↦
            let (c, f, h1) = >>=-eq_ok (opts_of (body_of o)) _ (rw e at h) in
            let (o', g, h2) = >>=-eq_ok (defaults same (length c) o defs) _ h1 in
            let (stands, named) = spec at o refl in
            updated sec o o' sec' at cells flags.nocase name opts stands
              (defaults-name_of (length c) o defs o' c f g) named h2
        | inr e ↦ remains sec sec' at o cells flags.nocase name opts (spec at o refl) (rw e at h)
      ]
  body-held sec name flags none (def_sec title defs) sec' cells opts short spec h =
      let made : Config Double = sec_create name (sec_flags flags) none in
      let (o, g, h1) = >>=-eq_ok (defaults same 0 made defs) _ h in
      let named : name_of o ≡ take 31 name =
        defaults-name_of 0 made defs o [] (made_opts name (sec_flags flags)) g
        ∙ made_name Double name (sec_flags flags) in
      added sec o sec' cells flags.nocase name opts h1 (
        subst (λ n. same_name flags.nocase n name ≡ true) (sym named)
          (created flags.nocase name short))
  body-held sec name flags (some (at, o)) (def_opt dquot squot type v) sec' cells opts short spec
        h =
      elim (Bool-cases (issec (body_of o))) [
        | inl e ↦ absurd (no_fault (rw e at h))
        | inr e ↦ remains sec sec' at o cells flags.nocase name opts (spec at o refl) (rw e at h)
      ]
  body-held sec name flags none (def_opt dquot squot type v) sec' cells opts short spec h =
      let (o, g, h1) = >>=-eq_ok (default_opt same name flags type v) _ h in
      let named = default_opt-name_of name flags type v o g in
      added sec o sec' cells flags.nocase name opts h1 (
        subst (λ n. same_name flags.nocase n name ≡ true) (sym named)
          (created flags.nocase name short))

  defaults-held :
      (nopts : ℕ) (sec : Config Double) (defs : Defs Double) (sec' : Config Double)
      (cells : List (Cell (Config Double)))
      → opts_of (body_of sec) ≡ ok cells
      → AreShort defs
      → defaults same nopts sec defs ≡ ok sec'
      → (cells' : List (Cell (Config Double))) × (opts_of (body_of sec') ≡ ok cells')
        × Keeps cells cells'
        × AreHeld defs cells'
  unfolding defaults
  defaults-held nopts sec def_end sec' cells opts short h =
      (cells, subst (λ r. opts_of (body_of r) ≡ ok cells) (ok_inj h) opts, λ c n k. k, tt)
  defaults-held nopts sec (def_next (def name flags body check) defs) sec' cells opts short h =
      let (sec1, g, h1) = >>=-eq_ok (default_def same nopts sec (def name flags body check)) _ h in
      let (c, e, g1) = >>=-eq_ok (opts_of (body_of sec)) _ g in
      let is : c ≡ cells = ok_inj (sym e ∙ opts) in
      let (hit, f, g2) = >>=-eq_ok (find_opt flags.nocase name 0 (take nopts c)) _ g1 in
      let f' = subst (λ t. find_opt flags.nocase name 0 (take nopts t) ≡ ok hit) is f in
      let (cells1, opts1, named, kept, held) =
        body-held sec name flags hit body sec1 cells opts short.0
          (found_lem nopts flags.nocase name hit cells f') g2 in
      let (cells', opts', kept', held') =
        defaults-held nopts sec1 defs sec' cells1 opts1 short.1 h1 in
      (cells', opts', λ nc n k. kept' nc n (kept nc n k), (kept' flags.nocase name held, held'))

  -- When `vt_config_defaults` succeeds, every definition has an option or a section with its name,
  -- provided that the names of the definitions have at most 31 characters, and every name that was
  -- among the options before is still there.
  pub defaults_of-held :
      (sec : Config Double) (defs : Defs Double) (sec' : Config Double)
      (cells : List (Cell (Config Double)))
      → opts_of (body_of sec) ≡ ok cells
      → AreShort defs
      → defaults_of same sec defs ≡ ok sec'
      → (cells' : List (Cell (Config Double))) × (opts_of (body_of sec') ≡ ok cells')
        × Keeps cells cells'
        × AreHeld defs cells'
  unfolding defaults_of
  defaults_of-held sec defs sec' cells opts short h =
      let (c, e, g) = >>=-eq_ok (opts_of (body_of sec)) _ h in
      defaults-held (length c) sec defs sec' cells opts short g
