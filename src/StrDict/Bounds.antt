-- ===== src/StrDict/Bounds.antt =====
-- The bounds `max_diff` and `min_diff` of a string dictionary (src/dict_str.c).
use valiant.Prelude.{
  ℕ, ◌≡◌, Bool, true, false, not, ◌&&◌, ◌||◌, Option, if◌then◌else◌, Bytes, arith,
}
use valiant.Prelude.Floats.{Floats, IsOrdered}
use valiant.Results.{Result, update}
use valiant.Request.{Request, mbrbyid}
use valiant.Request.Buffer.{Buffers}
use valiant.StrDict.{create, stat_check}
use valiant.StrDict.Reports.{matches, stat_check_lem}

module _ {F : Floats} (o : IsOrdered F) where
  -- The weight and 0 lie between the bounds.
  weight-bounds :
      (w : F.Float) (b : Bool)
      → (F.less (if F.less F.zero w then w else F.zero) (if b then w else F.zero) ≡ false)
        × (F.less (if b then w else F.zero) (if F.less w F.zero then w else F.zero) ≡ false)
  weight-bounds w true = ground (arith, o.less_irrefl w, o.less_irrefl F.zero)
  weight-bounds w false =
      ground (arith, o.less_irrefl F.zero, o.less_trans F.zero w F.zero, o.less_trans w F.zero w)

  -- The static check of a dictionary reports points that are no more than `max_diff` and no less
  -- than `min_diff`, as both were set when the dictionary was made, where weights are ordered (no
  -- NaN).
  pub stat_check-bounds :
      (B : Buffers) (member : Option Bytes) (invert nocase : Bool) (weight : F.Float)
      (pattern : Bytes) (req : Request B.Buf) (res : Result F) (pos : ℕ)
      → (points : F.Float) × (stat_check B
            (create {F = F} member invert nocase weight pattern).dict
            req
            res
            pos
          ≡ update F res pos points)
        × (F.less (create {F = F} member invert nocase weight pattern).max_diff points ≡ false)
        × (F.less points (create {F = F} member invert nocase weight pattern).min_diff ≡ false)
  unfolding create
  stat_check-bounds B member invert nocase weight pattern req res pos =
      let d = (create {F = F} member invert nocase weight pattern).dict in
      let m = matches d (mbrbyid B req d.member) in
      let b = (m && not invert) || (not m && invert) in
      let (above, below) = weight-bounds weight b in
      (if b then weight else F.zero, stat_check_lem B d req res pos, above, below)
