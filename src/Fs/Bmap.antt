-- ===== src/Fs/Bmap.antt =====
-- bmap() and itrunc() of xv6-public/fs.c: the blocks of a file.
use os_11740_assignment.Base.{ℕ, zero, suc, ◌+◌, ◌-◌, ◌*◌, ◌==◌, ◌!=◌, ltb, if◌then◌else◌, update}
use os_11740_assignment.Base.Run.{Cmd, pure, panics, get, when, ◌>>=◌, ◌>>◌}
use os_11740_assignment.Fs.{Superblock, Fs, ndirect, nindirect, bread, change, set_inode}
use os_11740_assignment.Fs.Words.{get32, put32}
use os_11740_assignment.Fs.Bitmap.{balloc, bfree}
use os_11740_assignment.Fs.Dinode.{iupdate}

-- ip->addrs[i] = addr
abbrev pub set_addr : ℕ → ℕ → ℕ → Cmd Fs (Unit {0})
set_addr ip i addr = set_inode ip (λ n. record n { addrs = update n.addrs i addr })

module _ (sb : Superblock) where
  -- A block number that is there, or a new block, which is then stored.
  abbrev pub or_balloc : ℕ → (ℕ → Cmd Fs (Unit {0})) → Cmd Fs ℕ
  or_balloc addr keep = if addr == 0 then (do new ← balloc sb; keep new; pure new) else pure addr

  unfoldable pub bmap_direct : ℕ → ℕ → Cmd Fs ℕ
  bmap_direct ip i = do s ← get; or_balloc ((s.inode ip).addrs i) (set_addr ip i)

  unfoldable pub bmap : ℕ → ℕ → Cmd Fs ℕ
  unfolding bmap_direct
  bmap ip bn =
      if ltb bn ndirect
      then bmap_direct ip bn
      else (if ltb (bn - ndirect) nindirect
          then (do
            addr ← bmap_direct ip ndirect
            a ← bread addr
            or_balloc (get32 a (4 * (bn - ndirect)))
                (λ new. change addr (put32 (4 * (bn - ndirect)) new)))
          else panics)

  -- The loop over the `k` direct blocks from entry `i` on.
  unfoldable pub free_direct : ℕ → ℕ → ℕ → Cmd Fs (Unit {0})
  free_direct ip zero i = pure tt
  free_direct ip (suc k) i = do
    s ← get
    when ((s.inode ip).addrs i != 0) (do bfree sb ((s.inode ip).addrs i); set_addr ip i 0)
    free_direct ip k (i + 1)

  -- The loop over the `k` block numbers from entry `j` on in block `addr`.
  unfoldable pub free_indirect : ℕ → ℕ → ℕ → Cmd Fs (Unit {0})
  free_indirect addr zero j = pure tt
  free_indirect addr (suc k) j = do
    a ← bread addr
    when (get32 a (4 * j) != 0) (bfree sb (get32 a (4 * j)))
    free_indirect addr k (j + 1)

  unfoldable pub itrunc : ℕ → Cmd Fs (Unit {0})
  itrunc ip = do
    free_direct ip ndirect 0
    s ← get
    when ((s.inode ip).addrs ndirect != 0) (do
      free_indirect ((s.inode ip).addrs ndirect) nindirect 0
      bfree sb ((s.inode ip).addrs ndirect)
      set_addr ip ndirect 0)
    set_inode ip (λ n. record n { size = 0 })
    iupdate sb ip
