-- ===== src/Config/Settled.antt =====
-- Calls of src/config.c that take no fuel.
use valiant.Prelude.{ℕ, zero, suc, Bool, true, false, some, List, [], ◌∷◌, if◌then◌else◌, Bytes}
use valiant.Prelude.Int.{ℤ, negsuc}
use valiant.Config.Types.{
  Outcome, ok, err, fault, ◌>>=◌, Cell, item, hole, deref, Inst, Flags, ConfigType, Value, no_value,
  bln, lng, dbl, str, ValueType, Vals, vals, released, Opt,
}
use valiant.Config.Options.{step_back, place, getn_marks, getn_cmn, grown, setn_cmn}
use valiant.Config.Access.{expect_type, setnbool, setnint, setnfloat, setnstr}
use valiant.Config.Tree.{Config, config, Body, body_none, body_file, body_sec, body_opt}
use valiant.Config.Sections.{Key, counts, count_opts, marks_of, sec_getn_cmn, put_opt, sec_setn_cmn}
use valiant.Config.Lookup.{opts_of, opt_of, sec_set, sec_setnopt, sec_setnsec}
use valiant.Config.Items.{appended, appended_compared, undeclared, update_opt, opt_at, setn_value}

-- The call does not run out of fuel.
pub data Settles {ℓ} {A : Type ℓ} : Outcome A → Type ℓ where
  with_ok : (a : A) → Settles (ok a)
  with_err : Settles err
  with_fault : Settles fault

pub >>=-Settles {ℓ κ} :
    {A : Type ℓ} {B : Type κ} {r : Outcome A} {f : A → Outcome B}
    → Settles r
    → ((a : A) → Settles (f a))
    → Settles (r >>= f)
>>=-Settles (with_ok a) k = k a
>>=-Settles with_err k = with_err
>>=-Settles with_fault k = with_fault

pub deref-Settles {ℓ} : {A : Type ℓ} (c : Cell A) → Settles (deref c)
unfolding deref
deref-Settles (item a) = with_ok a
deref-Settles (hole h) = with_fault

pub if-Settles {ℓ} :
    {A : Type ℓ} (b : Bool) {r s : Outcome A} → Settles r → Settles s → Settles (if b then r else s)
if-Settles true h k = h
if-Settles false h k = k

step_back-Settles : (b : Bool) (n : ℕ) → Settles (step_back b n)
unfolding step_back
step_back-Settles true n = with_ok n
step_back-Settles false zero = with_err
step_back-Settles false (suc n) = with_ok n

ruleset settled = (with_ok, with_err, with_fault, >>=-Settles, if-Settles, deref-Settles)

pub place-Settles :
    (n total : ℕ) (marks : List Bool) (idx : ℤ) (inst : Inst)
    → Settles (place n total marks idx inst)
unfolding place
place-Settles zero total marks idx inst = search settled
place-Settles (suc n) total marks idx inst = step_back-Settles _ _

module _ {Double : Type 0} where
  counts-Settles :
      (key : Key) (compare : Bool) (seen : ConfigType) (o : Config Double)
      → Settles (counts key compare seen o)
  unfolding counts
  counts-Settles key compare seen o = search settled

  count_opts-Settles :
      (key : Key) (compare : Bool) (seen : ConfigType) (cells : List (Cell (Config Double)))
      → Settles (count_opts key compare seen cells)
  unfolding count_opts
  count_opts-Settles key compare seen [] = search settled
  count_opts-Settles key compare seen (c ∷ cells) =
      search (settled, counts-Settles, λ (t : ConfigType). count_opts-Settles key compare t cells)

  marks_of-Settles :
      (key : Key) (compare : Bool) (cells : List (Cell (Config Double)))
      → Settles (marks_of key compare cells)
  unfolding marks_of
  marks_of-Settles key compare [] = search settled
  marks_of-Settles key compare (c ∷ cells) = search (settled, marks_of-Settles key compare cells)

  sec_getn_cmn-Settles :
      (cells : List (Cell (Config Double))) (key : Key) (idx : ℤ) (inst : Inst)
      → Settles (sec_getn_cmn cells key idx inst)
  unfolding sec_getn_cmn
  sec_getn_cmn-Settles cells key idx inst =
      search (settled, count_opts-Settles, marks_of-Settles, place-Settles)

  put_opt-Settles :
      (cells : List (Cell (Config Double))) (at : ℕ) (o : Config Double)
      → Settles (put_opt cells true at o)
  unfolding put_opt
  put_opt-Settles [] at o = search settled
  put_opt-Settles (c ∷ cells) at o = search settled

  pub opts_of-Settles : (body : Body Double) → Settles (opts_of body)
  unfolding opts_of
  opts_of-Settles body_none = search settled
  opts_of-Settles (body_file cells) = search settled
  opts_of-Settles (body_sec title cells) = search settled
  opts_of-Settles (body_opt opt) = search settled

  pub opt_of-Settles : (o : Config Double) → Settles (opt_of o)
  unfolding opt_of
  opt_of-Settles (config name flags l c body_none) = search settled
  opt_of-Settles (config name flags l c (body_file cells)) = search settled
  opt_of-Settles (config name flags l c (body_sec title cells)) = search settled
  opt_of-Settles (config name flags l c (body_opt opt)) = search settled

  sec_setn_cmn-Settles :
      (cells : List (Cell (Config Double))) (o : Config Double) (idx : ℤ)
      → Settles (sec_setn_cmn cells o idx (record appended_compared { recycle = true }) true)
  unfolding sec_setn_cmn
  sec_setn_cmn-Settles cells o idx = search (settled, sec_getn_cmn-Settles, put_opt-Settles)

  sec_set-Settles :
      (sec o : Config Double) (idx : ℤ) → Settles (sec_set sec o idx appended_compared true)
  unfolding sec_set
  sec_set-Settles sec o idx = search (settled, opts_of-Settles, sec_setn_cmn-Settles)

  pub sec_setnopt-Settles :
      (sec : Config Double) (name : Bytes) (flags : Flags) (idx : ℤ)
      → Settles (sec_setnopt sec name flags idx appended_compared true)
  unfolding sec_setnopt
  sec_setnopt-Settles sec name flags idx = search sec_set-Settles

  pub sec_setnsec-Settles :
      (sec : Config Double) (name : Bytes) (flags : Flags) (idx : ℤ)
      → Settles (sec_setnsec sec name flags idx appended_compared true)
  unfolding sec_setnsec
  sec_setnsec-Settles sec name flags idx = search sec_set-Settles

  pub opt_at-Settles : (sec : Config Double) (at : ℕ) → Settles (opt_at sec at)
  unfolding opt_at
  opt_at-Settles sec at = search (settled, opts_of-Settles)

  pub update_opt-Settles :
      (sec : Config Double) (at : ℕ) (o : Config Double) → Settles (update_opt sec at o)
  unfolding update_opt
  update_opt-Settles sec at o = search (settled, opts_of-Settles)

  pub undeclared-Settles :
      (nocase : Bool) (name : Bytes) (cells : List (Cell (Config Double)))
      → Settles (undeclared nocase name cells)
  unfolding undeclared
  undeclared-Settles nocase name [] = search settled
  undeclared-Settles nocase name (c ∷ cells) =
      search (settled, undeclared-Settles nocase name cells)

  grown-Settles : (values : Vals Double) → Settles (grown values true)
  unfolding grown
  grown-Settles released = search settled
  grown-Settles (vals []) = search settled
  grown-Settles (vals (c ∷ cells)) = search settled

  module _ (same : Value Double → Value Double → Bool) where
    setn_cmn-Settles :
        (opt : Opt Double) (v : Value Double)
        → Settles (setn_cmn same opt (some v) (negsuc 0) (record appended { set = true }) true)
    unfolding setn_cmn getn_cmn getn_marks
    setn_cmn-Settles opt v = search (settled, place-Settles, grown-Settles)

    expect_type-Settles : (opt : Opt Double) (type : ValueType) → Settles (expect_type opt type)
    unfolding expect_type
    expect_type-Settles opt type = search settled

    pub setn_value-Settles : (opt : Opt Double) (v : Value Double) → Settles (setn_value same opt v)
    unfolding setn_value setnbool setnint setnfloat setnstr
    setn_value-Settles opt (bln v) = search (settled, expect_type-Settles, setn_cmn-Settles)
    setn_value-Settles opt (lng v) = search (settled, expect_type-Settles, setn_cmn-Settles)
    setn_value-Settles opt (dbl v) = search (settled, expect_type-Settles, setn_cmn-Settles)
    setn_value-Settles opt (str v) = search (settled, expect_type-Settles, setn_cmn-Settles)
    setn_value-Settles opt no_value = search settled
