-- ===== src/Sysfile.antt =====
-- create(), link, unlink and isdirempty() of xv6-public/sysfile.c, over the file system. The strings are
-- those that argstr() has checked; begin_op() and end_op(), which are around each call, are of the log.
pub mod Nodes
pub mod Ends
mod Tests
use os_11740_assignment.Base.{
  ℕ, zero, suc, ◌+◌, ◌-◌, ◌*◌, ◌/◌, ◌%◌, ◌^◌, Bool, true, false, not, ◌&&◌, ◌||◌, ◌==◌, ◌!=◌, ltb,
  leb, Option, none, some, List, [], ◌∷◌, if◌then◌else◌,
}
use os_11740_assignment.Base.Run.{Cmd, pure, panics, spins, get, when, ◌>>=◌, ◌>>◌}
use os_11740_assignment.Fs.{Superblock, Fs, Inode, dirsiz, t_dir, t_file, set_inode}
use os_11740_assignment.Fs.Dinode.{iupdate}
use os_11740_assignment.Fs.Icache.{ialloc, ilock, iunlock, iput, iunlockput}
use os_11740_assignment.Fs.Content.{Devsw, writei}
use os_11740_assignment.Fs.Dir.{
  namecmp, dirent_size, de_inum, dirent, read_dirent, dirlookup, dirlink,
}
use os_11740_assignment.Fs.FilePath.{namei, nameiparent}

-- nlink++ and nlink-- on the bit pattern of a short, and nlink < 1.
abbrev pub link_more : Inode → Inode
link_more n = record n { nlink = (n.nlink + 1) % 2 ^ 16 }

abbrev pub link_less : Inode → Inode
link_less n = record n { nlink = (n.nlink + 2 ^ 16 - 1) % 2 ^ 16 }

abbrev pub has_no_link : Inode → Bool
has_no_link n = (n.nlink == 0) || leb (2 ^ 15) n.nlink

abbrev pub dot : List ℕ
dot = b'.' ∷ []

abbrev pub dots : List ℕ
dots = b'.' ∷ b'.' ∷ []

-- `cwd` is the current directory of the process. `true` stands for 0 and `false` for -1.
module _ (sb : Superblock) (devsw : Devsw) (cwd : ℕ) where
  -- The . and .. entries of a new directory.
  unfoldable pub make_dots : ℕ → ℕ → Cmd Fs (Unit {0})
  make_dots dp ip = do
    set_inode dp link_more
    iupdate sb dp
    s ← get
    one ← dirlink sb devsw ip dot (s.inode ip).inum
    if one
        then (do two ← dirlink sb devsw ip dots (s.inode dp).inum; if two then pure tt else panics)
        else panics

  unfoldable pub create_new : ℕ → List ℕ → ℕ → ℕ → ℕ → Cmd Fs (Option ℕ)
  create_new dp name type major minor = do
    s ← get
    ip ← ialloc sb (s.inode dp).dev type
    ilock sb ip
    set_inode ip (λ n. record n { major = major; minor = minor; nlink = 1 })
    iupdate sb ip
    when (type == t_dir) (make_dots dp ip)
    t ← get
    linked ← dirlink sb devsw dp name (t.inode ip).inum
    if linked then (do iunlockput sb dp; pure (some ip)) else panics

  -- The name is there already.
  unfoldable pub create_old : ℕ → ℕ → ℕ → Cmd Fs (Option ℕ)
  create_old dp ip type = do
    iunlockput sb dp
    ilock sb ip
    s ← get
    if (type == t_file) && ((s.inode ip).type == t_file)
        then pure (some ip)
        else (do iunlockput sb ip; pure none)

  unfoldable pub create : List ℕ → ℕ → ℕ → ℕ → Cmd Fs (Option ℕ)
  create path type major minor = do
    parent ← nameiparent sb devsw cwd path
    elim parent [
      | none ↦ pure none
      | some (dp, name) ↦ do
        ilock sb dp
        found ← dirlookup sb devsw dp name
        elim found [
          | some (ip, _) ↦ create_old dp ip type
          | none ↦ create_new dp name type major minor
        ]
    ]

  -- What sys_link() does when it cannot enter the name.
  unfoldable pub link_bad : ℕ → Cmd Fs Bool
  link_bad ip = do ilock sb ip; set_inode ip link_less; iupdate sb ip; iunlockput sb ip; pure false

  unfoldable pub link_name : ℕ → ℕ → List ℕ → Cmd Fs Bool
  link_name ip dp name = do
    ilock sb dp
    s ← get
    linked ←
        if (s.inode dp).dev != (s.inode ip).dev
        then pure false
        else dirlink sb devsw dp name (s.inode ip).inum
    iunlockput sb dp
    if linked then (do iput sb ip; pure true) else link_bad ip

  unfoldable pub sys_link : List ℕ → List ℕ → Cmd Fs Bool
  sys_link old new = do
    found ← namei sb devsw cwd old
    elim found [
      | none ↦ pure false
      | some (ip, _) ↦ do
        ilock sb ip
        s ← get
        if (s.inode ip).type == t_dir then (do iunlockput sb ip; pure false) else (do
          set_inode ip link_more
          iupdate sb ip
          iunlock ip
          parent ← nameiparent sb devsw cwd new
          elim parent [ none ↦ link_bad ip | some (dp, name) ↦ link_name ip dp name ])
    ]

  -- The loop of isdirempty() from `off` on, with a bound on its rounds.
  unfoldable pub empty_from : ℕ → ℕ → ℕ → Cmd Fs Bool
  empty_from zero dp off = spins
  empty_from (suc k) dp off =
      let rest = empty_from k dp (off + dirent_size) in
      do
        s ← get
        if ltb off (s.inode dp).size
            then (do de ← read_dirent sb devsw dp off; if de_inum de != 0 then pure false else rest)
            else pure true

  unfoldable pub isdirempty : ℕ → Cmd Fs Bool
  isdirempty dp = do s ← get; empty_from ((s.inode dp).size / dirent_size + 2) dp (2 * dirent_size)

  -- The entry at `off` of the directory is cleared, and the inode has one link less.
  unfoldable pub unlink_entry : ℕ → ℕ → ℕ → Cmd Fs Bool
  unlink_entry dp ip off = do
    r ← writei sb devsw dp off (dirent [] 0)
    elim r [
      | none ↦ panics
      | some n ↦
          if n == dirent_size
          then (do
            s ← get
            when ((s.inode ip).type == t_dir) (do set_inode dp link_less; iupdate sb dp)
            iunlockput sb dp
            set_inode ip link_less
            iupdate sb ip
            iunlockput sb ip
            pure true)
          else panics
    ]

  unfoldable pub unlink_found : ℕ → ℕ → ℕ → Cmd Fs Bool
  unlink_found dp ip off = do
    ilock sb ip
    s ← get
    if has_no_link (s.inode ip) then panics else (do
      empty ← if (s.inode ip).type == t_dir then isdirempty ip else pure true
      if empty then unlink_entry dp ip off else (do iunlockput sb ip; iunlockput sb dp; pure false))

  unfoldable pub sys_unlink : List ℕ → Cmd Fs Bool
  sys_unlink path = do
    parent ← nameiparent sb devsw cwd path
    elim parent [
      | none ↦ pure false
      | some (dp, name) ↦ do
        ilock sb dp
        if (namecmp name dot == 0) || (namecmp name dots == 0)
            then (do iunlockput sb dp; pure false)
            else (do
              found ← dirlookup sb devsw dp name
              elim found [
                | none ↦ do iunlockput sb dp; pure false
                | some (ip, off) ↦ unlink_found dp ip off
              ])
    ]
