-- ===== src/Worker/Verdict.antt =====
-- The response to a score (src/worker.c).
use valiant.Prelude.{ℕ, ◌≤◌, ◌≡◌, false, arith}
use valiant.Prelude.Floats.{Floats, IsOrdered}
use valiant.Worker.{Thresholds, Response, error_resp, block_resp, delay_resp, allow_resp, verdict}

-- How severe a response is.
unfoldable pub severity : Response → ℕ
severity allow_resp = 0
severity delay_resp = 1
severity block_resp = 2
severity error_resp = 3

module _ {F : Floats} where
  -- A score that is no less than another gets no milder a response, whatever the thresholds are,
  -- where the scores are ordered (there is no NaN).
  pub verdict-monotone :
      (t : Thresholds F) (a b : F.Float)
      → IsOrdered F
      → F.less b a ≡ false
      → severity (verdict t a) ≤ severity (verdict t b)
  unfolding severity verdict
  verdict-monotone t a b o h = ground (
    arith,
    o.at_least_not_less a t.block_threshold,
    o.at_least_not_less b t.block_threshold,
    o.at_least_not_less a t.delay_threshold,
    o.at_least_not_less b t.delay_threshold,
    o.less_cotrans b a t.block_threshold h,
    o.less_cotrans b a t.delay_threshold h,
  )
