-- ===== src/Sysfile/Nodes.antt =====
-- mkdir, mknod, chdir and the part of open that finds or makes the inode, of xv6-public/sysfile.c. `none`
-- and `false` stand for -1.
use os_11740_assignment.Base.{
  ℕ, ◌/◌, ◌%◌, ◌^◌, Bool, true, false, ◌&&◌, ◌==◌, ◌!=◌, Option, none, some, List, if◌then◌else◌,
}
use os_11740_assignment.Base.Run.{Cmd, pure, get, ◌>>=◌, ◌>>◌}
use os_11740_assignment.Fs.{Superblock, Fs, t_dir, t_file, t_dev}
use os_11740_assignment.Fs.Icache.{ilock, iunlock, iput, iunlockput}
use os_11740_assignment.Fs.Content.{Devsw}
use os_11740_assignment.Fs.FilePath.{namei}
use os_11740_assignment.Sysfile.{create}

-- omode & O_CREATE
abbrev pub creates : ℕ → Bool
creates omode = omode / 0x200 % 2 == 1

module _ (sb : Superblock) (devsw : Devsw) (cwd : ℕ) where
  -- The inode of a new directory or device is given back at once.
  unfoldable pub give_back : Option ℕ → Cmd Fs Bool
  give_back none = pure false
  give_back (some ip) = do iunlockput sb ip; pure true

  unfoldable pub sys_mkdir : List ℕ → Cmd Fs Bool
  sys_mkdir path = do made ← create sb devsw cwd path t_dir 0 0; give_back made

  -- create() takes the two ints as shorts.
  unfoldable pub sys_mknod : List ℕ → ℕ → ℕ → Cmd Fs Bool
  sys_mknod path major minor = do
    made ← create sb devsw cwd path t_dev (major % 2 ^ 16) (minor % 2 ^ 16)
    give_back made

  -- The new current directory.
  unfoldable pub sys_chdir : List ℕ → Cmd Fs (Option ℕ)
  sys_chdir path = do
    found ← namei sb devsw cwd path
    elim found [
      | none ↦ pure none
      | some (ip, _) ↦ do
        ilock sb ip
        s ← get
        if (s.inode ip).type != t_dir
            then (do iunlockput sb ip; pure none)
            else (do iunlock ip; iput sb cwd; pure (some ip))
    ]

  -- The inode that open works on, which is locked then.
  unfoldable pub open_inode : List ℕ → ℕ → Cmd Fs (Option ℕ)
  open_inode path omode = if creates omode then create sb devsw cwd path t_file 0 0 else (do
    found ← namei sb devsw cwd path
    elim found [
      | none ↦ pure none
      | some (ip, _) ↦ do
        ilock sb ip
        s ← get
        if ((s.inode ip).type == t_dir) && (omode != 0)
            then (do iunlockput sb ip; pure none)
            else pure (some ip)
    ])
