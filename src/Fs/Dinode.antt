-- ===== src/Fs/Dinode.antt =====
-- `struct dinode` of xv6-public/fs.h in the bytes of a block, and iupdate() of fs.c.
pub mod Stored
use os_11740_assignment.Base.{ℕ, zero, suc, ◌+◌, ◌*◌, ◌%◌, ltb, if◌then◌else◌, true}
use os_11740_assignment.Base.Run.{Cmd, pure, get, ◌>>=◌}
use os_11740_assignment.Fs.{Superblock, Inode, Fs, ndirect, ipb, iblock, bread, change}
use os_11740_assignment.Fs.Words.{get16, put16, get32, put32}

-- The super block, as it stands in block 1.
unfoldable pub readsb : Cmd Fs Superblock
readsb = do
  d ← bread 1
  pure (record {
    size = get32 d 0;
    nblocks = get32 d 4;
    ninodes = get32 d 8;
    nlog = get32 d 12;
    logstart = get32 d 16;
    inodestart = get32 d 20;
    bmapstart = get32 d 24;
  })

-- The place of inode `inum` in its block.
abbrev pub place : ℕ → ℕ
place inum = inum % ipb * 64

-- The `k` block numbers from entry `i` on, stored from byte `o` on.
unfoldable pub put_addrs : ℕ → ℕ → (ℕ → ℕ) → ℕ → (ℕ → ℕ) → ℕ → ℕ
put_addrs zero i addrs o d = d
put_addrs (suc k) i addrs o d = put_addrs k (i + 1) addrs (o + 4) (put32 o (addrs i) d)

unfoldable pub put_dinode : ℕ → Inode → (ℕ → ℕ) → ℕ → ℕ
put_dinode o ip d = put_addrs (ndirect + 1) 0 ip.addrs (o + 12) (
    put32 (o + 8) ip.size (
      put16 (o + 6) ip.nlink (put16 (o + 4) ip.minor (put16 (o + 2) ip.major (put16 o ip.type d)))))

-- What ilock() copies out of the block.
abbrev pub get_dinode : ℕ → (ℕ → ℕ) → Inode → Inode
get_dinode o d ip = record ip {
  type = get16 d o;
  major = get16 d (o + 2);
  minor = get16 d (o + 4);
  nlink = get16 d (o + 6);
  size = get32 d (o + 8);
  addrs = λ i. get32 d (o + 12 + 4 * i);
}

unfoldable pub iupdate : Superblock → ℕ → Cmd Fs (Unit {0})
iupdate sb ip = do
  s ← get
  change (iblock sb (s.inode ip).inum) (put_dinode (place (s.inode ip).inum) (s.inode ip))
