-- ===== src/Fs/FilePath.antt =====
-- Path names of xv6-public/fs.c: skipelem() and namex(). A path is the list of its characters before the
-- terminating 0.
pub mod Elements
use os_11740_assignment.Base.{
  ℕ, zero, suc, ◌+◌, ◌-◌, Bool, true, false, ◌&&◌, ◌==◌, ltb, leb, Option, none, some, List, [],
  ◌∷◌, ◌++◌, length, take, if◌then◌else◌,
}
use os_11740_assignment.Base.Run.{Cmd, pure, panics, spins, get, ◌>>=◌, ◌>>◌}
use os_11740_assignment.Fs.{Superblock, Fs, dirsiz, t_dir, rootdev, rootino}
use os_11740_assignment.Fs.Icache.{iget, idup, ilock, iunlock, iput, iunlockput}
use os_11740_assignment.Fs.Content.{Devsw}
use os_11740_assignment.Fs.Dir.{dirlookup}

-- while(*path == '/') path++
unfoldable pub skip_slashes : List ℕ → List ℕ
skip_slashes [] = []
skip_slashes (c ∷ cs) = let rest = skip_slashes cs in if c == b'/' then rest else c ∷ cs

-- while(*path != '/' && *path != 0) path++: the characters passed, and the path behind them.
unfoldable pub split_elem : List ℕ → List ℕ × List ℕ
split_elem [] = ([], [])
split_elem (c ∷ cs) =
    let rest = split_elem cs in if c == b'/' then ([], c ∷ cs) else (c ∷ rest.0, rest.1)

-- The element, of which DIRSIZ characters are copied at most, and the path behind it.
abbrev pub cut_elem : List ℕ × List ℕ → List ℕ × List ℕ
cut_elem (s, path) = ((if leb dirsiz (length s) then take dirsiz s else s), skip_slashes path)

abbrev pub elem_at : List ℕ → Option (List ℕ × List ℕ)
elem_at [] = none
elem_at (c ∷ cs) = some (cut_elem (split_elem (c ∷ cs)))

unfoldable pub skipelem : List ℕ → Option (List ℕ × List ℕ)
unfolding skip_slashes split_elem
skipelem path = elem_at (skip_slashes path)

abbrev pub is_empty : List ℕ → Bool
is_empty [] = true
is_empty (c ∷ cs) = false

abbrev pub is_absolute : List ℕ → Bool
is_absolute [] = false
is_absolute (c ∷ cs) = c == b'/'

module _ (sb : Superblock) (devsw : Devsw) (nameiparent : Bool) where
  -- The loop of namex() from inode `ip` on, with a bound on its rounds and the last element that was
  -- copied: the inode and the element.
  unfoldable pub namex_loop : ℕ → ℕ → List ℕ → List ℕ → Cmd Fs (Option (ℕ × List ℕ))
  namex_loop zero ip path name = spins
  namex_loop (suc k) ip path name = elim (skipelem path) [
    | none ↦ if nameiparent then (do iput sb ip; pure none) else pure (some (ip, name))
    | some (elem, rest) ↦ do
      ilock sb ip
      s ← get
      if (s.inode ip).type == t_dir
          then (if nameiparent && is_empty rest
              then (do iunlock ip; pure (some (ip, elem)))
              else (do
                next ← dirlookup sb devsw ip elem
                elim next [
                  | none ↦ do iunlockput sb ip; pure none
                  | some (child, _) ↦ do iunlockput sb ip; namex_loop k child rest elem
                ]))
          else (do iunlockput sb ip; pure none)
  ]

  -- `cwd` is the current directory of the process.
  unfoldable pub namex : ℕ → List ℕ → Cmd Fs (Option (ℕ × List ℕ))
  namex cwd path = do
    ip ← if is_absolute path then iget rootdev rootino else idup cwd
    namex_loop (length path + 1) ip path []

-- namei() gives the inode, nameiparent() that of the directory and the last element.
unfoldable pub namei : Superblock → Devsw → ℕ → List ℕ → Cmd Fs (Option (ℕ × List ℕ))
namei sb devsw = namex sb devsw false

unfoldable pub nameiparent : Superblock → Devsw → ℕ → List ℕ → Cmd Fs (Option (ℕ × List ℕ))
nameiparent sb devsw = namex sb devsw true
