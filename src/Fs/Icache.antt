-- ===== src/Fs/Icache.antt =====
-- The inode cache of xv6-public/fs.c: iget(), idup(), ilock(), iunlock(), iput() and ialloc(). The spin
-- lock of the cache, which is held around the loop and the changes of `ref`, is left out.
pub mod Reload
pub mod Found
pub mod Unique
use os_11740_assignment.Base.{
  ℕ, zero, suc, ◌+◌, ◌-◌, ◌^◌, Bool, true, false, ◌&&◌, ◌==◌, ltb, Option, none, some,
  if◌then◌else◌, update, List, [], ◌∷◌,
}
use os_11740_assignment.Base.Run.{Cmd, pure, panics, blocks, get, when, ◌>>=◌, ◌>>◌}
use os_11740_assignment.Mmu.{u32}
use os_11740_assignment.Kalloc.{is_positive}
use os_11740_assignment.Fs.{Superblock, Inode, Fs, ninode, iblock, bread, change, set_inode}
use os_11740_assignment.Fs.Words.{get16, put16}
use os_11740_assignment.Fs.Dinode.{place, get_dinode, iupdate}
use os_11740_assignment.Fs.Bmap.{itrunc}

-- The entry is in use for this inode.
abbrev pub is_for : ℕ → ℕ → Inode → Bool
is_for dev inum n = is_positive n.ref && ((n.dev == dev) && (n.inum == inum))

-- Recycle an entry.
abbrev pub recycle : ℕ → ℕ → Inode → Inode
recycle dev inum n = record n { dev = dev; inum = inum; ref = 1; valid = false }

-- if(empty == 0 && ip->ref == 0) empty = ip
abbrev pub remember : Option ℕ → ℕ → ℕ → Option ℕ
remember (some e) ref i = some e
remember none ref i = if ref == 0 then some i else none

-- What is left to do when the inode is not cached.
unfoldable pub iget_empty : ℕ → ℕ → Option ℕ → Cmd Fs ℕ
iget_empty dev inum none = panics
iget_empty dev inum (some e) = do set_inode e (recycle dev inum); pure e

-- The loop over the `k` entries from `i` on, with the empty entry that was seen.
unfoldable pub iget_loop : ℕ → ℕ → ℕ → ℕ → Option ℕ → Cmd Fs ℕ
unfolding iget_empty
iget_loop dev inum zero i empty s = iget_empty dev inum empty s
iget_loop dev inum (suc k) i empty s =
    let rest = iget_loop dev inum k (i + 1) (remember empty (s.inode i).ref i) s in
    if is_for dev inum (s.inode i)
    then (do set_inode i (λ n. record n { ref = u32 (n.ref + 1) }); pure i) s
    else rest

unfoldable pub iget : ℕ → ℕ → Cmd Fs ℕ
iget dev inum = iget_loop dev inum ninode 0 none

unfoldable pub idup : ℕ → Cmd Fs ℕ
idup ip = do set_inode ip (λ n. record n { ref = u32 (n.ref + 1) }); pure ip

-- acquiresleep() and releasesleep() of ip->lock
abbrev pub acquiresleep : ℕ → Cmd Fs (Unit {0})
acquiresleep ip = do
  s ← get
  if (s.inode ip).held then blocks else set_inode ip (λ n. record n { held = true })

abbrev pub releasesleep : ℕ → Cmd Fs (Unit {0})
releasesleep ip = set_inode ip (λ n. record n { held = false })

unfoldable pub iunlock : ℕ → Cmd Fs (Unit {0})
iunlock ip = do
  s ← get
  if (s.inode ip).held && is_positive (s.inode ip).ref then releasesleep ip else panics

module _ (sb : Superblock) where
  -- Read the inode from disk.
  unfoldable pub load_inode : ℕ → Cmd Fs (Unit {0})
  load_inode ip = do
    s ← get
    d ← bread (iblock sb (s.inode ip).inum)
    set_inode ip (λ n. record (get_dinode (place n.inum) d n) { valid = true })
    t ← get
    if (t.inode ip).type == 0 then panics else pure tt

  unfoldable pub ilock : ℕ → Cmd Fs (Unit {0})
  unfolding load_inode
  ilock ip = do
    s ← get
    if is_positive (s.inode ip).ref
        then (do acquiresleep ip; t ← get; if (t.inode ip).valid then pure tt else load_inode ip)
        else panics

  unfoldable pub iput : ℕ → Cmd Fs (Unit {0})
  iput ip = do
    acquiresleep ip
    s ← get
    when ((s.inode ip).valid && ((s.inode ip).nlink == 0)) (
        when ((s.inode ip).ref == 1) (do
          itrunc sb ip
          set_inode ip (λ n. record n { type = 0 })
          iupdate sb ip
          set_inode ip (λ n. record n { valid = false })))
    releasesleep ip
    set_inode ip (λ n. record n { ref = u32 (n.ref + 2 ^ 32 - 1) })

  unfoldable pub iunlockput : ℕ → Cmd Fs (Unit {0})
  iunlockput ip = do iunlock ip; iput ip

  -- A cleared inode of the type, on the disk.
  abbrev pub fresh_dinode : ℕ → ℕ → (ℕ → ℕ) → ℕ → ℕ
  fresh_dinode o type d =
      put16 o type (λ x. if ltb x o then d x else (if ltb x (o + 64) then 0 else d x))

  -- The loop of ialloc() for the `k` inodes from `inum` on.
  unfoldable pub ialloc_loop : ℕ → ℕ → ℕ → ℕ → Cmd Fs ℕ
  ialloc_loop dev type zero inum = panics
  ialloc_loop dev type (suc k) inum =
      let rest = ialloc_loop dev type k (inum + 1) in
      do
        d ← bread (iblock sb inum)
        if get16 d (place inum) == 0
            then (do change (iblock sb inum) (fresh_dinode (place inum) type); iget dev inum)
            else rest

  unfoldable pub ialloc : ℕ → ℕ → Cmd Fs ℕ
  ialloc dev type = ialloc_loop dev type (sb.ninodes - 1) 1
