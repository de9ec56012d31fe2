-- ===== src/Rbl.antt =====
-- Block lists (src/rbl.c): the weights of networks, and what an answer of the name server comes to.
-- Addresses and netmasks are numbers of 32 bits in the order of the host; the bits above, that
-- `1 << 31` sets in a netmask where a long is wider, meet no bit of an address.
pub mod Heaviest
pub mod Masks
mod Tests
use valiant.Prelude.{
  ℕ, zero, suc, ◌+◌, ◌-◌, ◌*◌, ◌^◌, ◌/◌, Bool, true, false, not, ◌&&◌, ◌||◌, Option, none, some,
  List, [], ◌∷◌, ◌==◌, ltb, if◌then◌else◌,
}
use valiant.Prelude.Floats.{Floats}
use valiant.Results.{Result, update}
use valiant.BackOff.{State, error}
use Prim.Native.Nat.{bit_and}

-- `struct _vt_rbl_weight`
pub record Weight (F : Floats) : Type 0 where
  pub network : ℕ
  pub netmask : ℕ
  pub weight : F.Float

-- The outcomes of `SPF_dns_lookup` that the check tells apart.
pub data Herrno : Type 0 where
  netdb_success no_data try_again other : Herrno

-- `(address & weight->netmask) == (weight->network & weight->netmask)`
unfoldable pub in_network : {F : Floats} → ℕ → Weight F → Bool
in_network address w = bit_and address w.netmask == bit_and w.network w.netmask

-- the loop that makes the netmask: `bits` bits, 32 at most, are set, from the highest on
unfoldable pub netmask_of : ℕ → ℕ
netmask_of zero = 0
netmask_of (suc bits) = netmask_of bits + 2 ^ (31 - bits)

-- `vt_rbl_weight_sort (a, b) > 0`
unfoldable pub weight_after : {F : Floats} → Weight F → Weight F → Bool
weight_after a b = ltb a.netmask b.netmask

-- `if (heaviest == NULL || heaviest->weight < weight->weight) heaviest = weight;`
unfoldable pub heavier : (F : Floats) → Option F.Float → F.Float → Option F.Float
heavier F none w = some w
heavier F (some h) w = if F.less h w then some w else some h

module _ {F : Floats} where
  -- the loop over the weights, for one address
  unfoldable pub heaviest_of : ℕ → List (Weight F) → Option F.Float → Option F.Float
  unfolding in_network heavier
  heaviest_of address [] h = h
  heaviest_of address (w ∷ ws) h =
      heaviest_of address ws (if in_network address w then heavier F h w.weight else h)

  -- the loop over the addresses of the answer
  unfoldable pub heaviest : List ℕ → List (Weight F) → Option F.Float → Option F.Float
  heaviest [] ws h = h
  heaviest (address ∷ addresses) ws h = heaviest addresses ws (heaviest_of address ws h)

  -- `vt_rbl_check`: the result and the back-off state; the times are for the state
  unfoldable pub check :
      Herrno
      → List ℕ
      → List (Weight F)
      → Result F
      → ℕ
      → State
      → (now later : ℕ) → Option (Result F × State)
  check try_again addresses ws res pos s now later = elim (error s now later) [
    | none ↦ none
    | some s' ↦ some (res, s')
  ]
  check other addresses ws res pos s now later = some (res, s)
  check _ addresses ws res pos s now later = elim (heaviest addresses ws none) [
    | none ↦ some (res, s)
    | some h ↦ some (update F res pos h, s)
  ]

  -- `vt_rbl_max_weight` and `vt_rbl_min_weight`, on weights that are whole
  unfoldable pub max_weight : F.Float → List (Weight F) → F.Float
  max_weight n [] = n
  max_weight n (w ∷ ws) = max_weight (if F.less n w.weight then w.weight else n) ws

  unfoldable pub min_weight : F.Float → List (Weight F) → F.Float
  min_weight n [] = n
  min_weight n (w ∷ ws) = min_weight (if F.less w.weight n then w.weight else n) ws
