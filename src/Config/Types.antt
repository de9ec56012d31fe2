-- ===== src/Config/Types.antt =====
-- The data of src/config.c and include/valiant/config.h: outcomes of a call, arrays of pointers,
-- flags, values.
use valiant.Prelude.{
  ℕ, zero, suc, ◌+◌, ◌/◌, ◌%◌, Bool, true, false, List, [], ◌∷◌, ◌++◌, ◌==◌, if◌then◌else◌, Bytes,
  take, drop,
}
use valiant.Prelude.Int.{ℤ}

-- What a call comes to: its result; an error, which the caller is told of; undefined behaviour or a
-- failed assertion; a round of a loop that the fuel does not reach.
pub data Outcome {ℓ} (A : Type ℓ) : Type ℓ where
  ok : A → Outcome A
  err : Outcome A
  fault : Outcome A
  out_of_fuel : Outcome A

infixl 5 ◌>>=◌ ◌>>◌
abbrev pub ◌>>=◌ {ℓ κ} : {A : Type ℓ} {B : Type κ} → Outcome A → (A → Outcome B) → Outcome B
ok a >>= f = f a
err >>= f = err
fault >>= f = fault
out_of_fuel >>= f = out_of_fuel

abbrev pub ◌>>◌ {ℓ} : {B : Type ℓ} → Outcome (Unit {0}) → Outcome B → Outcome B
m >> k = m >>= λ _. k

-- An entry of an array of pointers: it points to an object, it is NULL, it is indeterminate, or the
-- object that it points to has been freed.
pub data Hole : Type 0 where
  null junk freed : Hole

pub data Cell {ℓ} (A : Type ℓ) : Type ℓ where
  item : A → Cell A
  hole : Hole → Cell A

-- What is read through the pointer.
unfoldable pub deref {ℓ} : {A : Type ℓ} → Cell A → Outcome A
deref (item a) = ok a
deref (hole h) = fault

module _ {ℓ} {A : Type ℓ} where
  -- `n` entries from the start of `cells`; behind its end they are indeterminate
  unfoldable pub load : ℕ → List (Cell A) → List (Cell A)
  load zero cells = []
  load (suc n) [] = hole junk ∷ load n []
  load (suc n) (c ∷ cells) = c ∷ load n cells

  -- `memmove (cells + dst, cells + src, n * sizeof (void *))`, where `dst + n` is in the array
  unfoldable pub memmove : List (Cell A) → ℕ → ℕ → ℕ → List (Cell A)
  unfolding load
  memmove cells dst src n = take dst cells ++ (load n (drop src cells) ++ drop (dst + n) cells)

  -- `memmove (cells + dst, cells + src, n)`: pointers have eight bytes, and an entry of which some
  -- bytes are written is indeterminate.
  unfoldable pub memmove_bytes : List (Cell A) → ℕ → ℕ → ℕ → List (Cell A)
  unfolding memmove
  memmove_bytes cells dst src n =
      let moved = memmove cells dst src (n / 8) in
      if n % 8 == 0
      then moved
      else take (dst + n / 8) moved ++ (hole junk ∷ drop (dst + n / 8 + 1) moved)

  -- the entry at `i`; behind the end it is read at no one's word
  unfoldable pub entry : List (Cell A) → ℕ → Cell A
  entry [] i = hole junk
  entry (c ∷ cells) zero = c
  entry (c ∷ cells) (suc i) = entry cells i

-- The flags of an option or a section: `VT_CONFIG_FLAG_*`.
pub record Flags : Type 0 where
  pub multi : Bool
  pub list : Bool
  pub nocase : Bool
  pub title : Bool
  pub nodefault : Bool
  pub nodupes : Bool

-- `VT_CONFIG_INST_*`
pub record Inst : Type 0 where
  pub set : Bool
  pub prepend : Bool
  pub append : Bool
  pub compare : Bool
  pub recycle : Bool

-- `VT_CONFIG_INST_NONE`
abbrev pub inst_none : Inst
inst_none = record {
  set = false;
  prepend = false;
  append = false;
  compare = false;
  recycle = false;
}

-- `vt_config_type_t`
pub data ConfigType : Type 0 where
  type_none type_file type_sec type_opt : ConfigType

-- `type == other`
unfoldable pub same_type : ConfigType → ConfigType → Bool
same_type type_none type_none = true
same_type type_file type_file = true
same_type type_sec type_sec = true
same_type type_opt type_opt = true
same_type _ _ = false

-- `vt_value_type_t` and `vt_value_t`, as far as config.c reads them
pub data ValueType : Type 0 where
  none_type bool_type int_type float_type str_type : ValueType

pub data Value (Double : Type 0) : Type 0 where
  no_value : Value Double
  bln : Bool → Value Double
  lng : ℤ → Value Double
  dbl : Double → Value Double
  str : Bytes → Value Double

-- `val->type`
unfoldable pub value_type : {Double : Type 0} → Value Double → ValueType
value_type no_value = none_type
value_type (bln b) = bool_type
value_type (lng n) = int_type
value_type (dbl d) = float_type
value_type (str s) = str_type

-- `type == other`
unfoldable pub same_value_type : ValueType → ValueType → Bool
same_value_type none_type none_type = true
same_value_type bool_type bool_type = true
same_value_type int_type int_type = true
same_value_type float_type float_type = true
same_value_type str_type str_type = true
same_value_type _ _ = false

-- `vals` and `nvals`; `released` where `vals` has been freed and is kept
pub data Vals (Double : Type 0) : Type 0 where
  vals : List (Cell (Value Double)) → Vals Double
  released : Vals Double

-- `vt_config_opt_t`
pub record Opt (Double : Type 0) : Type 0 where
  pub type : ValueType
  pub values : Vals Double

-- `opt->data.opt.vals` up to `nvals`
unfoldable pub opt_vals : {Double : Type 0} → Vals Double → List (Cell (Value Double))
opt_vals (vals cells) = cells
opt_vals released = []
