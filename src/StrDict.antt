-- ===== src/StrDict.antt =====
-- The dictionary that compares a member of the request with a pattern (src/dict_str.c).
pub mod Reports
pub mod Bounds
mod Tests
use valiant.Prelude.{
  ℕ, zero, suc, ◌+◌, Bool, true, false, not, ◌&&◌, ◌||◌, Option, none, some, List, [], ◌∷◌, ◌==◌,
  if◌then◌else◌, Bytes, strcmp, strcasecmp, tolower, char_at, length, drop,
}
use valiant.Prelude.Floats.{Floats}
use valiant.Results.{Result, update}
use valiant.Request.{Member, Request, mbrbyid, mbrbynamen, mbrtoid}
use valiant.Request.Buffer.{Buffers}
use valiant.Dict.{percent, dynamic_pattern, unescape_pattern}

-- `struct _vt_dict_str`
pub record StrDict (F : Floats) : Type 0 where
  pub member : Member
  pub pattern : Bytes
  pub nocase : Bool
  pub invert : Bool
  pub weight : F.Float

-- The dictionary that is made: its data, which check it has, and what a check adds to a score at
-- most and at least.
pub record Created (F : Floats) : Type 0 where
  pub dict : StrDict F
  pub dynamic : Bool
  pub max_diff : F.Float
  pub min_diff : F.Float

-- the macro `chrcasecmp`
unfoldable pub chrcasecmp : Bool → ℕ → ℕ → Bool
chrcasecmp b c1 c2 = c1 == c2 || (b && tolower c1 == tolower c2)

-- `strchr (s, '%')`: what stands before the first percent sign, and the string from it on
unfoldable pub strchr_percent : Bytes → Option (Bytes × Bytes)
strchr_percent [] = none
strchr_percent (c ∷ s) =
    let rest = strchr_percent s in
    if c == percent
    then some ([], c ∷ s)
    else elim rest [ none ↦ none | some (before, from) ↦ some (c ∷ before, from) ]

-- The inner loop of the dynamic check: what is left of the member and of the string it runs along.
unfoldable pub run_along : Bool → Bytes → Bytes → Bytes × Bytes
unfolding chrcasecmp
run_along nocase [] str = ([], str)
run_along nocase (m ∷ member) [] = (m ∷ member, [])
run_along nocase (m ∷ member) (c ∷ str) =
    let rest = run_along nocase member str in
    if chrcasecmp nocase m c then rest else (m ∷ member, c ∷ str)

-- What one turn of the loop of the dynamic check does: it goes on, leaves the loop, or ends the
-- program.
pub data Scan : Type 0 where
  go : (member ptr1 : Bytes) → Scan
  break : (member ptr1 : Bytes) → Scan
  panic : Scan

-- What the whole loop comes to.
pub data Scanned : Type 0 where
  ended : (member ptr1 : Bytes) → Scanned
  panicked : Scanned
  no_fuel : Scanned

-- a byte of the pattern that stands for itself, against the first byte of the member
unfoldable pub scan_byte : Bool → ℕ → Bytes → ℕ → Bytes → Scan
unfolding chrcasecmp
scan_byte nocase m member c p =
    if chrcasecmp nocase m c then go member p else break (m ∷ member) (c ∷ p)

module _ (B : Buffers) where
  -- `%name%`, from the name on
  unfoldable pub scan_name : Bool → Request B.Buf → Bytes → Bytes → Scan
  unfolding run_along strchr_percent
  scan_name nocase req member ptr1 = elim (strchr_percent ptr1) [
    | none ↦ panic
    | some (name, ptr2) ↦ elim (mbrbynamen B req ptr1 (length name)) [
      | none ↦ panic
      | some str ↦
          let (m, s) = run_along nocase member str in
          elim s [ [] ↦ go m (drop 1 ptr2) | _ ↦ break m ptr2 ]
    ]
  ]

  -- one turn, at the byte `c` of the pattern and the byte `m` of the member
  unfoldable pub scan : Bool → Request B.Buf → ℕ → Bytes → ℕ → Bytes → Scan
  scan nocase req m member c p =
      if c == percent
      then (if char_at p 0 == percent
          then scan_byte nocase m member percent (drop 1 p)
          else scan_name nocase req (m ∷ member) p)
      else scan_byte nocase m member c p

  -- the loop over the pattern
  unfoldable pub scan_loop : ℕ → Bool → Request B.Buf → Bytes → Bytes → Scanned
  scan_loop fuel nocase req [] p = ended [] p
  scan_loop fuel nocase req (m ∷ member) [] = ended (m ∷ member) []
  scan_loop zero nocase req (m ∷ member) (c ∷ p) = no_fuel
  scan_loop (suc fuel) nocase req (m ∷ member) (c ∷ p) = elim (scan nocase req m member c p) [
    | go member' p' ↦ scan_loop fuel nocase req member' p'
    | break member' p' ↦ ended member' p'
    | panic ↦ panicked
  ]

module _ {F : Floats} where
  -- `vt_dict_str_create`, with the settings of the section and memory at hand
  unfoldable pub create : Option Bytes → Bool → Bool → F.Float → Bytes → Created F
  create member invert nocase weight pattern =
      let dynamic = dynamic_pattern pattern in
      record {
        dict = record {
          member = mbrtoid member;
          pattern = if dynamic then pattern else unescape_pattern pattern;
          nocase = nocase;
          invert = invert;
          weight = weight;
        };
        dynamic = dynamic;
        max_diff = if F.less F.zero weight then weight else F.zero;
        min_diff = if F.less weight F.zero then weight else F.zero;
      }

module _ {F : Floats} (B : Buffers) where
  -- `vt_dict_stat_str_check`
  unfoldable pub stat_check : StrDict F → Request B.Buf → Result F → ℕ → Result F
  stat_check data' req res pos = elim (mbrbyid B req data'.member) [
    | none ↦ update F res pos (if data'.invert then data'.weight else F.zero)
    | some member ↦
        let matched =
          if data'.nocase then strcasecmp member data'.pattern else strcmp member data'.pattern in
        update F res pos (
          if matched
          then (if data'.invert then F.zero else data'.weight)
          else if data'.invert
          then data'.weight
          else F.zero)
  ]

  -- `vt_dict_dyn_str_check`; `none` where the program ends
  unfoldable pub dyn_check : StrDict F → Request B.Buf → Result F → ℕ → Option (Result F)
  dyn_check data' req res pos = elim (mbrbyid B req data'.member) [
    | none ↦
        let weight = if data'.invert then data'.weight else F.zero in
        some (update F res pos data'.weight)
    | some member ↦
        elim (scan_loop B (length data'.pattern) data'.nocase req member data'.pattern) [
          | ended m ptr1 ↦
              let weight =
                if char_at m 0 == char_at ptr1 0
                then (if data'.invert then F.zero else data'.weight)
                else if data'.invert
                then data'.weight
                else F.zero in
              some (update F res pos data'.weight)
          | panicked ↦ none
          | no_fuel ↦ none
        ]
  ]
