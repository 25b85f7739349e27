-- ===== src/Log/Space.antt =====
-- The reservation of log space that begin_op() makes, and what log_write() does with it.
use os_11740_assignment.Base.{ℕ, ◌+◌, ◌*◌, ◌≤◌, ◌<◌, ◌≡◌, refl, arith, false, length}
use os_11740_assignment.Log.{Log, logsize, maxopblocks, done, waits, begin_op}

-- `credit` is the number of blocks that the operations in progress may still add to the log.
pub record HasSpace (credit : ℕ) (s : Log) : Type 0 where
  pub fits : length s.lh + credit ≤ logsize
  pub reserved : credit ≤ s.outstanding * maxopblocks
  pub idle : s.committing ≡ false

module _ {credit : ℕ} {s : Log} (i : HasSpace credit s) where
  -- begin_op() admits an operation exactly if there is room for the full reservation of every operation
  -- in progress and of the new one. The new one may then add MAXOPBLOCKS blocks.
  pub begin_op-HasSpace :
      ((length s.lh + (s.outstanding + 1) * maxopblocks ≤ logsize)
        → (t : Log) × (begin_op s ≡ done tt t) × HasSpace (credit + maxopblocks) t × (t.lh ≡ s.lh))
      × ((logsize < length s.lh + (s.outstanding + 1) * maxopblocks) → begin_op s ≡ waits)
  unfolding begin_op
  begin_op-HasSpace = (
    λ h. (
      record s { outstanding = s.outstanding + 1 },
      ground (arith, i.idle),
      ground (arith, i.fits, i.reserved, i.idle),
      refl,
    ),
    λ h. ground (arith, i.idle),
  )
