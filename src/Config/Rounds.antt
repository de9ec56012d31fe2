-- ===== src/Config/Rounds.antt =====
-- Rounds of `vt_config_defaults` (src/config.c).
use valiant.Prelude.{
  ℕ, ◌≤◌, ◌≡◌, refl, sym, ap, subst, ◌∙◌, Bool, true, Option, none, some, List, [], ◌∷◌, ◌++◌,
  Bytes, length, set, take, take_all, arith,
}
use valiant.Config.Types.{ok, fault, Cell, item, Flags, Opt}
use valiant.Config.Tree.{
  Config, config, to_list, def, Defs, def_end, def_next, name_of, body_of, create, sec_create,
}
use valiant.Config.Lookup.{opts_of, with_opts, with_opt}
use valiant.Config.Items.{same_name, update_opt}
use valiant.Config.Defaults.{find_opt, add_opt}
use valiant.Config.Inserted.{opts_of-with_opts}
use valiant.Config.Named.{
  same_name_refl, Holds, Holds-append, Holds-end, Stands, Stands-Holds, Holds-set, Stands-take,
  find_opt-Stands,
}
use valiant.Config.Added.{add_opt-end, name_of-with_opts}

pub ok_inj {ℓ} : {A : Type ℓ} {a b : A} → ok a ≡ ok b → a ≡ b
ok_inj h = cc

pub created :
    (nocase : Bool) (name : Bytes) → length name ≤ 31 → same_name nocase (take 31 name) name ≡ true
created nocase name h = rw (take_all 31 name h) (same_name_refl nocase name)

pub made_name :
    (Double : Type 0) (name : Bytes) (flags : Flags)
    → name_of (sec_create {Double = Double} name flags none) ≡ take 31 name
unfolding sec_create create name_of
made_name Double name flags = refl

pub no_fault {ℓ} : {A : Type ℓ} {a : A} → fault ≡ ok a → ⊥
no_fault h = cc

module _ {Double : Type 0} where
  pub stays :
      (sec sec' : Config Double) (cells : List (Cell (Config Double)))
      → opts_of (body_of sec) ≡ ok cells
      → ok sec ≡ ok sec'
      → (cells' : List (Cell (Config Double))) × (opts_of (body_of sec') ≡ ok cells')
        × (name_of sec' ≡ name_of sec)
  stays sec sec' cells opts h =
      let is = ok_inj h in
      (cells, subst (λ r. opts_of (body_of r) ≡ ok cells) is opts, ap name_of (sym is))

  -- Names of at most 31 characters are stored whole.
  abbrev pub AreShort : Defs Double → Type 0
  AreShort def_end = Unit
  AreShort (def_next (def name flags body check) defs) = (length name ≤ 31) × AreShort defs

  -- Every definition has an option or a section with its name among the entries.
  abbrev pub AreHeld : Defs Double → List (Cell (Config Double)) → Type 0
  AreHeld def_end cells = Unit
  AreHeld (def_next (def name flags body check) defs) cells =
      Holds flags.nocase name cells × AreHeld defs cells

  -- What is there before is there after.
  abbrev pub Keeps : List (Cell (Config Double)) → List (Cell (Config Double)) → Type 0
  Keeps cells cells' =
      (nocase : Bool) (name : Bytes) → Holds nocase name cells → Holds nocase name cells'

  -- A section that grew: its name stays, and what was in it.
  abbrev pub Grows : Config Double → List (Cell (Config Double)) → Config Double → Type 0
  Grows sec cells sec' =
      (cells' : List (Cell (Config Double))) × (opts_of (body_of sec') ≡ ok cells')
      × (name_of sec' ≡ name_of sec)
      × Keeps cells cells'

  pub added :
      (sec o sec' : Config Double) (cells : List (Cell (Config Double))) (nocase : Bool)
      (name : Bytes)
      → opts_of (body_of sec) ≡ ok cells
      → add_opt sec o ≡ ok sec'
      → same_name nocase (name_of o) name ≡ true
      → (cells' : List (Cell (Config Double))) × (opts_of (body_of sec') ≡ ok cells')
        × (name_of sec' ≡ name_of sec)
        × Keeps cells cells'
        × Holds nocase name cells'
  added sec o sec' cells nocase name opts h n =
      let (held, named) = add_opt-end sec o sec' cells opts h in
      (cells ++ item o ∷ [], held, named, λ c k. Holds-append (item o ∷ []), Holds-end cells o n)

  pub updated :
      (sec o o' sec' : Config Double) (at : ℕ) (cells : List (Cell (Config Double))) (nocase : Bool)
      (name : Bytes)
      → opts_of (body_of sec) ≡ ok cells
      → Stands o at cells
      → name_of o' ≡ name_of o
      → same_name nocase (name_of o) name ≡ true
      → update_opt sec at o' ≡ ok sec'
      → (cells' : List (Cell (Config Double))) × (opts_of (body_of sec') ≡ ok cells')
        × (name_of sec' ≡ name_of sec)
        × Keeps cells cells'
        × Holds nocase name cells'
  unfolding update_opt
  updated sec o o' sec' at cells nocase name opts s n e h =
      let made : ok (with_opts sec (set cells at (item o'))) ≡ ok sec' = rw opts at h in
      let is : with_opts sec (set cells at (item o')) ≡ sec' = cc in
      let new = set cells at (item o') in
      (
        new,
        subst (λ r. opts_of (body_of r) ≡ ok new) is (opts_of-with_opts sec cells new opts),
        ap name_of (sym is) ∙ name_of-with_opts sec new cells opts,
        λ c k. Holds-set o o' at s n,
        Holds-set o o' at s n (Stands-Holds o at cells s e),
      )

  pub name_of-with_opt :
      (o : Config Double) (opt : Opt Double) → name_of (with_opt o opt) ≡ name_of o
  unfolding with_opt name_of
  name_of-with_opt (config name flags l c body) opt = refl

  pub remains :
      (sec sec' : Config Double) (at : ℕ) (o : Config Double) (cells : List (Cell (Config Double)))
      (nocase : Bool) (name : Bytes)
      → opts_of (body_of sec) ≡ ok cells
      → Stands o at cells × (same_name nocase (name_of o) name ≡ true)
      → ok sec ≡ ok sec'
      → (cells' : List (Cell (Config Double))) × (opts_of (body_of sec') ≡ ok cells')
        × (name_of sec' ≡ name_of sec)
        × Keeps cells cells'
        × Holds nocase name cells'
  remains sec sec' at o cells nocase name opts (stands, named) h =
      let is = ok_inj h in
      (
        cells,
        subst (λ r. opts_of (body_of r) ≡ ok cells) is opts,
        ap name_of (sym is),
        λ c n k. k,
        Stands-Holds o at cells stands named,
      )

  pub made_opts :
      (name : Bytes) (flags : Flags)
      → opts_of (body_of (sec_create {Double = Double} name flags none)) ≡ ok []
  unfolding sec_create create body_of opts_of to_list
  made_opts name flags = refl

  pub found_lem :
      (nopts : ℕ) (nocase : Bool) (name : Bytes) (hit : Option (ℕ × Config Double))
      (cells : List (Cell (Config Double)))
      → find_opt nocase name 0 (take nopts cells) ≡ ok hit
      → (at : ℕ) (o : Config Double) → hit ≡ some (at, o)
      → Stands o at cells × (same_name nocase (name_of o) name ≡ true)
  found_lem nopts nocase name hit cells f at o e =
      let f' : find_opt nocase name 0 (take nopts cells) ≡ ok (some (at, o)) = f ∙ ap ok e in
      let (i, l, s, n) = find_opt-Stands nocase name 0 at o (take nopts cells) f' in
      let same_at : i ≡ at = omega (arith, l) in
      (subst (λ k. Stands o k cells) same_at (Stands-take o nopts i cells s), n)
