-- ===== src/Fs/Dir.antt =====
-- Directories of xv6-public/fs.c: namecmp(), dirlookup() and dirlink(). A name is the list of its
-- characters before the terminating 0, of which the first DIRSIZ count.
use os_11740_assignment.Base.{
  ℕ, zero, suc, ◌+◌, ◌-◌, ◌*◌, ◌/◌, ◌%◌, Bool, true, false, ◌==◌, ltb, Option, none, some, List, [],
  ◌∷◌, length, drop, get_or, if◌then◌else◌,
}
use os_11740_assignment.Base.Run.{Cmd, pure, panics, spins, get, ◌>>=◌, ◌>>◌}
use os_11740_assignment.Bytes.{strncmp}
use os_11740_assignment.Fs.{Superblock, Fs, dirsiz, t_dir}
use os_11740_assignment.Fs.Icache.{iget, iput}
use os_11740_assignment.Fs.Content.{Devsw, readi, writei}

-- strncmp(s, t, DIRSIZ), with the two names in one memory.
abbrev pub namecmp : List ℕ → List ℕ → ℕ
namecmp s t =
    strncmp (λ x. if ltb x dirsiz then get_or s x 0 else get_or t (x - dirsiz) 0) 0 dirsiz dirsiz

-- sizeof(struct dirent), and its fields in the bytes of an entry.
abbrev pub dirent_size : ℕ
dirent_size = 2 + dirsiz

abbrev pub de_inum : List ℕ → ℕ
de_inum de = get_or de 0 0 + 256 * get_or de 1 0

abbrev pub de_name : List ℕ → List ℕ
de_name de = drop 2 de

-- strncpy(de.name, name, DIRSIZ): the name, cut off or filled up with zeros.
unfoldable pub pad_name : ℕ → List ℕ → List ℕ
pad_name zero name = []
pad_name (suc k) [] = 0 ∷ pad_name k []
pad_name (suc k) (c ∷ cs) = c ∷ pad_name k cs

abbrev pub dirent : List ℕ → ℕ → List ℕ
dirent name inum = inum % 256 ∷ inum / 256 % 256 ∷ pad_name dirsiz name

module _ (sb : Superblock) (devsw : Devsw) where
  -- The entry at `off`; readi() must give it whole.
  unfoldable pub read_dirent : ℕ → ℕ → Cmd Fs (List ℕ)
  read_dirent dp off = do
    r ← readi sb devsw dp off dirent_size
    elim r [ none ↦ panics | some de ↦ if length de == dirent_size then pure de else panics ]

  -- The loop of dirlookup() from `off` on, with a bound on its rounds: the offset and the number of the
  -- inode.
  unfoldable pub lookup_loop : ℕ → ℕ → List ℕ → ℕ → Cmd Fs (Option (ℕ × ℕ))
  lookup_loop zero dp name off = spins
  lookup_loop (suc k) dp name off =
      let rest = lookup_loop k dp name (off + dirent_size) in
      do
        s ← get
        if ltb off (s.inode dp).size
            then (do
              de ← read_dirent dp off
              if de_inum de == 0
                  then rest
                  else (if namecmp name (de_name de) == 0
                      then pure (some (off, de_inum de))
                      else rest))
            else pure none

  -- The inode, and the offset of the entry.
  unfoldable pub dirlookup : ℕ → List ℕ → Cmd Fs (Option (ℕ × ℕ))
  dirlookup dp name = do
    s ← get
    if (s.inode dp).type == t_dir
        then (do
          found ← lookup_loop ((s.inode dp).size / dirent_size + 2) dp name 0
          elim found [
            | none ↦ pure none
            | some (off, inum) ↦ do ip ← iget (s.inode dp).dev inum; pure (some (ip, off))
          ])
        else panics

  -- The loop of dirlink() that looks for an empty entry.
  unfoldable pub empty_loop : ℕ → ℕ → ℕ → Cmd Fs ℕ
  empty_loop zero dp off = spins
  empty_loop (suc k) dp off =
      let rest = empty_loop k dp (off + dirent_size) in
      do
        s ← get
        if ltb off (s.inode dp).size
            then (do de ← read_dirent dp off; if de_inum de == 0 then pure off else rest)
            else pure off

  -- `true` stands for 0 and `false` for -1.
  unfoldable pub dirlink : ℕ → List ℕ → ℕ → Cmd Fs Bool
  dirlink dp name inum = do
    there ← dirlookup dp name
    elim there [
      | some (ip, _) ↦ do iput sb ip; pure false
      | none ↦ do
        s ← get
        off ← empty_loop ((s.inode dp).size / dirent_size + 2) dp 0
        r ← writei sb devsw dp off (dirent name inum)
        elim r [ none ↦ panics | some n ↦ if n == dirent_size then pure true else panics ]
    ]
