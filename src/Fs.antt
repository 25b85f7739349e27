-- ===== src/Fs.antt =====
-- The file system of xv6-public/fs.c, over the blocks that bread() returns: the state, the layout of
-- the disk by fs.h, and the access to blocks. There is one device.
pub mod Words
pub mod Ends
pub mod Bitmap
pub mod Dinode
pub mod Bmap
pub mod Icache
pub mod Content
pub mod Dir
pub mod FilePath
mod Tests
use os_11740_assignment.Base.{ℕ, ◌+◌, ◌*◌, ◌/◌, ◌%◌, Bool, List, update}
use os_11740_assignment.Base.Run.{Cmd, ok, modify}
use os_11740_assignment.Log.{absorb}

-- BSIZE, BPB, NDIRECT, NINDIRECT, MAXFILE, IPB, DIRSIZ, NINODE, NDEV, ROOTINO and ROOTDEV
abbrev pub bsize : ℕ
bsize = 512

abbrev pub bpb : ℕ
bpb = bsize * 8

abbrev pub ndirect : ℕ
ndirect = 12

abbrev pub nindirect : ℕ
nindirect = bsize / 4

abbrev pub maxfile : ℕ
maxfile = ndirect + nindirect

abbrev pub ipb : ℕ
ipb = bsize / 64

abbrev pub dirsiz : ℕ
dirsiz = 14

abbrev pub ninode : ℕ
ninode = 50

abbrev pub ndev : ℕ
ndev = 10

abbrev pub rootino : ℕ
rootino = 1

abbrev pub rootdev : ℕ
rootdev = 1

-- struct superblock
pub record Superblock : Type 0 where
  pub size : ℕ
  pub nblocks : ℕ
  pub ninodes : ℕ
  pub nlog : ℕ
  pub logstart : ℕ
  pub inodestart : ℕ
  pub bmapstart : ℕ

-- IBLOCK and BBLOCK
abbrev pub iblock : Superblock → ℕ → ℕ
iblock sb i = i / ipb + sb.inodestart

abbrev pub bblock : Superblock → ℕ → ℕ
bblock sb b = b / bpb + sb.bmapstart

-- T_DIR, T_FILE and T_DEV of stat.h
abbrev pub t_dir : ℕ
t_dir = 1

abbrev pub t_file : ℕ
t_file = 2

abbrev pub t_dev : ℕ
t_dev = 3

-- `struct inode`. A `short` is its bit pattern; `held` says that a process holds the sleep lock.
pub record Inode : Type 0 where
  pub dev : ℕ
  pub inum : ℕ
  pub ref : ℕ
  pub held : Bool
  pub valid : Bool
  pub type : ℕ
  pub major : ℕ
  pub minor : ℕ
  pub nlink : ℕ
  pub size : ℕ
  pub addrs : ℕ → ℕ

-- The bytes of each block as the buffer cache has them, the blocks that log_write() put into the
-- transaction, and the inode cache. A pointer to an inode is its index there.
pub record Fs : Type 0 where
  pub block : ℕ → ℕ → ℕ
  pub logged : List ℕ
  pub inode : ℕ → Inode

-- bread(b)->data
abbrev pub bread : ℕ → Cmd Fs (ℕ → ℕ)
bread b s = ok (s.block b) s

-- A change of the bytes of block `b`, and its log_write().
abbrev pub change : ℕ → ((ℕ → ℕ) → ℕ → ℕ) → Cmd Fs (Unit {0})
change b f =
    modify (λ s. record s { block = update s.block b (f (s.block b)); logged = absorb b s.logged })

abbrev pub set_inode : ℕ → (Inode → Inode) → Cmd Fs (Unit {0})
set_inode ip f = modify (λ s. record s { inode = update s.inode ip (f (s.inode ip)) })
