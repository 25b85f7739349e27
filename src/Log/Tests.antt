-- ===== src/Log/Tests.antt =====
-- log.c with a log from block 2 on, and the theorems at it.
use os_11740_assignment.Base.{
  ℕ, zero, suc, ◌+◌, ◌<◌, List, ◌≡◌, refl, false, [], ◌∷◌, arith, if◌then◌else◌, ◌==◌, inr, ◌≤◌,
}
use os_11740_assignment.Log.{Log, commit, done, log_write, recover_from_log}
use os_11740_assignment.Log.Ends.{Ends}
use os_11740_assignment.Log.Replay.{IsHome, IsLogged, logical}
use os_11740_assignment.Log.Recovery.{recover_from_log-Ends}
use os_11740_assignment.Log.Commit.{
  Committed, Atomic, AllOrNothing, boot, commit-Ends, commit-recover,
}

-- Blocks 40 and 41 were changed to hold 7 everywhere; the power lasts for three writes.
abbrev changed : Log
changed = record {
  disk = λ b i. 0;
  cache = λ b i. if b == 40 then 7 else (if b == 41 then 7 else 0);
  lh = 40 ∷ 41 ∷ [];
  outstanding = 1;
  committing = false;
  life = 3;
}

-- The blocks from `n` + 39 down to 40.
abbrev blocks : ℕ → List ℕ
blocks zero = []
blocks (suc n) = (40 + n) ∷ blocks n

commit-Ends_example :
    Ends (λ _ u. Committed 2 30 changed u) (Atomic 2 30 changed) (commit 2 changed)
commit-Ends_example =
    commit-Ends 2 30 changed refl (omega arith) (omega arith)
      (inr (omega arith), (inr (omega arith), tt)) (λ j h. ground arith)

commit-recover_example :
    Ends
      (λ _ u. Committed 2 30 changed u)
      (λ d.
        Ends
          (λ _ u. AllOrNothing 2 30 changed u.disk × (u.disk 2 0 ≡ 0))
          (λ d'. IsLogged 2 30 d' × (100 < 30))
          (recover_from_log 2 (boot 2 30 d 100)))
      (commit 2 changed)
commit-recover_example =
    commit-recover 2 30 changed 100 refl (omega arith) (omega arith)
      (inr (omega arith), (inr (omega arith), tt)) (λ j h. ground arith)

-- A header with one entry, for block 40, is on the disk.
abbrev restarted : Log
restarted = record changed {
  disk = λ b i. if b == 2 then (if i == 0 then 1 else 40) else b;
  cache = λ b i. if b == 2 then (if i == 0 then 1 else 40) else b;
}

restarted-IsLogged : IsLogged 2 30 restarted.disk
restarted-IsLogged = record { few = omega arith; home = (inr (omega arith), tt) }

recover_from_log-Ends_example :
    Ends
      (λ _ u.
        ((x : ℕ) → IsHome 2 30 x → u.disk x ≡ logical 2 restarted.disk x)
        × (u.disk 2 0 ≡ 0)
        × (u.lh ≡ []))
      (λ d.
        ((x : ℕ) → logical 2 d x ≡ logical 2 restarted.disk x)
        × IsLogged 2 30 d
        × (restarted.life ≤ restarted.disk 2 0))
      (recover_from_log 2 restarted)
recover_from_log-Ends_example =
    recover_from_log-Ends 2 30 restarted (omega arith) restarted-IsLogged refl

-- The log of 30 blocks that mkfs.c makes, with 29 entries behind its header: three operations are admitted,
-- and one of them may still write a block.
abbrev nearly_full : Log
nearly_full = record changed { lh = blocks 29; outstanding = 3 }

-- In the log with two entries there is room.
log_write_room : (t : Log) × (log_write 30 42 changed ≡ done tt t)
unfolding log_write
log_write_room = (_, refl)
