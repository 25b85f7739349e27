-- ===== src/Fs/Content.antt =====
-- readi(), writei() and stati() of xv6-public/fs.c. `none` stands for -1.
pub mod Mapped
pub mod Written
pub mod RoundTrip
use os_11740_assignment.Base.{
  ℕ, zero, suc, ◌+◌, ◌-◌, ◌*◌, ◌/◌, ◌%◌, ◌^◌, Bool, true, false, ◌&&◌, ◌==◌, ltb, leb, Option, none,
  some, List, [], ◌∷◌, ◌++◌, length, take, drop, if◌then◌else◌, update,
}
use os_11740_assignment.Base.Run.{Cmd, pure, panics, spins, get, when, ◌>>=◌, ◌>>◌}
use os_11740_assignment.Mmu.{u32}
use os_11740_assignment.Fs.{
  Superblock, Inode, Fs, bsize, ndev, maxfile, t_dev, bread, change, set_inode,
}
use os_11740_assignment.Fs.Dinode.{iupdate}
use os_11740_assignment.Fs.Bmap.{bmap}

-- struct stat, and what stati() copies into it.
pub record Stat : Type 0 where
  pub dev : ℕ
  pub ino : ℕ
  pub type : ℕ
  pub nlink : ℕ
  pub size : ℕ

unfoldable pub stati : ℕ → Fs → Stat
stati ip s = record {
  dev = (s.inode ip).dev;
  ino = (s.inode ip).inum;
  type = (s.inode ip).type;
  nlink = (s.inode ip).nlink;
  size = (s.inode ip).size;
}

-- min(n, BSIZE - off%BSIZE)
abbrev pub chunk : ℕ → ℕ → ℕ
chunk off n = if ltb n (bsize - off % bsize) then n else bsize - off % bsize

-- The `k` bytes from `o` on, and a list of bytes stored there.
unfoldable pub get_bytes : (ℕ → ℕ) → ℕ → ℕ → List ℕ
get_bytes d o zero = []
get_bytes d o (suc k) = d o ∷ get_bytes d (o + 1) k

unfoldable pub put_bytes : ℕ → List ℕ → (ℕ → ℕ) → ℕ → ℕ
put_bytes o [] d = d
put_bytes o (c ∷ cs) d = put_bytes (o + 1) cs (update d o c)

-- `devsw`: the device functions that are there.
pub record Devsw : Type 0 where
  pub read : ℕ → Option (ℕ → ℕ → Cmd Fs (Option (List ℕ)))
  pub write : ℕ → Option (ℕ → List ℕ → Cmd Fs (Option ℕ))

-- ip->major < 0 || ip->major >= NDEV, on the bit pattern of a short
abbrev pub no_device : ℕ → Bool
no_device major = leb ndev major

module _ (sb : Superblock) (devsw : Devsw) where
  -- The loop of readi() for the `n` bytes that are left, with a bound on its rounds.
  unfoldable pub read_loop : ℕ → ℕ → ℕ → ℕ → Cmd Fs (List ℕ)
  read_loop zero ip off n = spins
  read_loop (suc k) ip off n =
      let rest = read_loop k ip (off + chunk off n) (n - chunk off n) in
      if n == 0 then pure [] else (do
        addr ← bmap sb ip (off / bsize)
        d ← bread addr
        more ← rest
        pure (get_bytes d (off % bsize) (chunk off n) ++ more))

  unfoldable pub read_device : ℕ → ℕ → ℕ → Cmd Fs (Option (List ℕ))
  read_device ip major n =
      if no_device major
      then pure none
      else elim (devsw.read major) [ none ↦ pure none | some f ↦ f ip n ]

  -- The bytes that are read, at most `n`.
  unfoldable pub readi : ℕ → ℕ → ℕ → Cmd Fs (Option (List ℕ))
  unfolding read_device
  readi ip off n = do
    s ← get
    if (s.inode ip).type == t_dev
        then read_device ip (s.inode ip).major n
        else (if ltb (s.inode ip).size off
            then pure none
            else (if ltb (u32 (off + n)) off then pure none else (do
              let m = if ltb (s.inode ip).size (off + n) then (s.inode ip).size - off else n
              bytes ← read_loop (m + 1) ip off m
              pure (some bytes))))

  -- The loop of writei() for the bytes that are left: the offset behind the last one.
  unfoldable pub write_loop : ℕ → ℕ → ℕ → List ℕ → Cmd Fs ℕ
  write_loop zero ip off src = spins
  write_loop (suc k) ip off src =
      let m = chunk off (length src) in
      let rest = write_loop k ip (off + m) (drop m src) in
      if length src == 0 then pure off else (do
        addr ← bmap sb ip (off / bsize)
        change addr (put_bytes (off % bsize) (take m src))
        rest)

  unfoldable pub write_device : ℕ → ℕ → List ℕ → Cmd Fs (Option ℕ)
  write_device ip major src =
      if no_device major
      then pure none
      else elim (devsw.write major) [ none ↦ pure none | some f ↦ f ip src ]

  unfoldable pub writei : ℕ → ℕ → List ℕ → Cmd Fs (Option ℕ)
  unfolding write_device
  writei ip off src = do
    s ← get
    if (s.inode ip).type == t_dev
        then write_device ip (s.inode ip).major src
        else (if ltb (s.inode ip).size off
            then pure none
            else (if ltb (u32 (off + length src)) off
                then pure none
                else (if ltb (maxfile * bsize) (off + length src) then pure none else (do
                  end ← write_loop (length src + 1) ip off src
                  t ← get
                  when (ltb 0 (length src) && ltb (t.inode ip).size end)
                      (do set_inode ip (λ n. record n { size = end }); iupdate sb ip)
                  pure (some (length src))))))
