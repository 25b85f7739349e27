-- ===== src/Fs/Ends/Names.antt =====
-- Directories and path names of xv6-public/fs.c end.
use os_11740_assignment.Base.{
  ℕ, zero, suc, ◌+◌, ◌*◌, ◌/◌, ◌≤◌, ◌<◌, refl, arith, Bool, ◌&&◌, inl, inr, Bool-cases, ltb, ◌==◌,
  Option, none, some, if◌then◌else◌, List, length, [],
}
use os_11740_assignment.Base.Run.{Cmd, pure, get, ◌>>=◌, ◌>>◌}
use os_11740_assignment.Base.Ends.{
  Ends, returns, panicked, Keeps, Keeps-pure, Keeps-get, Ends-map, Ends-bind, Ends-test,
  Keeps-panics, Keeps-option,
}
use os_11740_assignment.Fs.{Superblock, Fs, t_dir, rootdev, rootino}
use os_11740_assignment.Fs.Icache.{iget, ilock, iunlock, iput, iunlockput}
use os_11740_assignment.Fs.Content.{Devsw}
use os_11740_assignment.Fs.Dir.{
  namecmp, dirent_size, de_inum, de_name, dirent, read_dirent, lookup_loop, dirlookup, empty_loop,
  dirlink,
}
use os_11740_assignment.Fs.FilePath.{skipelem, namex_loop, namex, is_absolute, is_empty}
use os_11740_assignment.Fs.FilePath.Elements.{Takes, skipelem-Takes, length-Splits}
use os_11740_assignment.Fs.Ends.{
  Sizes, Any, Sizes-order, Any-order, Any-Sizes, sizes_rules, any_rules, Any-option, Any-bind,
  Any-if, Sizes-bind,
}
use os_11740_assignment.Fs.Ends.Inodes.{
  IsQuiet, iget-Sizes, idup-Any, iunlock-Any, ilock-Any, iput-Any, iunlockput-Any, readi-Sizes,
  writei-Any,
}

-- The rounds that are left are enough for the entries from `off` on.
abbrev pub IsEnough : ℕ → ℕ → ℕ → Fs → Type 0
IsEnough k dp off s = (1 ≤ k) × ((s.inode dp).size + dirent_size ≤ off + dirent_size * k)

module _ (sb : Superblock) (devsw : Devsw) (quiet : IsQuiet devsw) where
  pub read_dirent-Sizes : (dp off : ℕ) → Keeps Sizes (read_dirent sb devsw dp off)
  unfolding read_dirent
  read_dirent-Sizes dp off =
      Sizes-bind (readi-Sizes sb devsw quiet dp off dirent_size)
        (λ r. Keeps-option Sizes-order r Keeps-panics (λ de. search sizes_rules))

  -- One round of a loop over the entries of a directory.
  pub round_ends :
      {A : Type 0} (k dp off : ℕ) (body : List ℕ → Cmd Fs A) (x : A) (s : Fs)
      → IsEnough (suc k) dp off s
      → ((de : List ℕ) (t : Fs) → IsEnough k dp (off + dirent_size) t → Ends (Sizes t) (body de t))
      → Ends (Sizes s) (
          (if ltb off (s.inode dp).size
              then (do de ← read_dirent sb devsw dp off; body de)
              else pure x)
            s)
  round_ends k dp off body x s h step =
      Ends-test (ltb off (s.inode dp).size) (do de ← read_dirent sb devsw dp off; body de) (pure x)
        s
        (λ e. Ends-bind ((read_dirent-Sizes dp off).at s) (λ de t p.
          Ends-map (step de t (let q = p dp in ground arith)) (λ u. Sizes-order.trans s t u p)))
        (λ e. returns (λ i. refl))

  pub lookup_loop_ends :
      (name : List ℕ) (k dp off : ℕ) (s : Fs)
      → IsEnough k dp off s
      → Ends (Sizes s) (lookup_loop sb devsw k dp name off s)
  unfolding lookup_loop
  lookup_loop_ends name zero dp off s h = absurd (omega (arith, h.0))
  lookup_loop_ends name (suc k) dp off s h = round_ends k dp off _ none s h (λ de t g.
      let rest = lookup_loop sb devsw k dp name (off + dirent_size) in
      let this = pure (some (off, de_inum de)) in
      let ends = lookup_loop_ends name k dp (off + dirent_size) t g in
      Ends-test (de_inum de == 0) rest (if namecmp name (de_name de) == 0 then this else rest) t
        (λ _. ends)
        (λ _.
          Ends-test (namecmp name (de_name de) == 0) this rest t (λ _. returns (λ i. refl))
            (λ _. ends)))

  pub empty_loop_ends :
      (k dp off : ℕ) (s : Fs)
      → IsEnough k dp off s
      → Ends (Sizes s) (empty_loop sb devsw k dp off s)
  unfolding empty_loop
  empty_loop_ends zero dp off s h = absurd (omega (arith, h.0))
  empty_loop_ends (suc k) dp off s h = round_ends k dp off _ off s h (λ de t g.
      Ends-test (de_inum de == 0) (pure off) (empty_loop sb devsw k dp (off + dirent_size)) t
        (λ _. returns (λ i. refl)) (λ _. empty_loop_ends k dp (off + dirent_size) t g))

  -- The inode of the entry that was found.
  abbrev entry_inode : ℕ → Option (ℕ × ℕ) → Cmd Fs (Option (ℕ × ℕ))
  entry_inode dev none = pure none
  entry_inode dev (some (off, inum)) = do ip ← iget dev inum; pure (some (ip, off))

  entry_inode-Any : (dev : ℕ) (found : Option (ℕ × ℕ)) → Keeps Any (entry_inode dev found)
  entry_inode-Any dev none = Keeps-pure Any-order none
  entry_inode-Any dev (some (off, inum)) = search (any_rules, Any-Sizes, iget-Sizes)

  pub dirlookup-Any : (dp : ℕ) (name : List ℕ) → Keeps Any (dirlookup sb devsw dp name)
  unfolding dirlookup
  dirlookup-Any dp name = record {
    at = λ s. elim (Bool-cases ((s.inode dp).type == t_dir)) [
      | inl e ↦ rw e (
          Ends-bind
            (lookup_loop_ends name ((s.inode dp).size / dirent_size + 2) dp 0 s (ground arith))
            (λ found t p. (entry_inode-Any (s.inode dp).dev found).at t))
      | inr e ↦ rw e panicked
    ];
  }

  pub dirlink-Any : (dp : ℕ) (name : List ℕ) (inum : ℕ) → Keeps Any (dirlink sb devsw dp name inum)
  unfolding dirlink
  dirlink-Any dp name inum = Any-bind (dirlookup-Any dp name) (λ there.
      Keeps-option Any-order there
        (record {
          at = λ s.
              Ends-bind
                (empty_loop_ends ((s.inode dp).size / dirent_size + 2) dp 0 s (ground arith))
                (λ off t p.
                  (Any-bind (writei-Any sb devsw quiet dp off (dirent name inum))
                      (λ r. Keeps-option Any-order r Keeps-panics (λ n. search any_rules))).at
                    t);
        })
        (λ (ip, off). search (any_rules, iput-Any)))

  module _ (is_parent : Bool) where
    -- The inode of the element, and what comes then.
    abbrev enter : ℕ → List ℕ → (ℕ → Cmd Fs (Option (ℕ × List ℕ))) → Cmd Fs (Option (ℕ × List ℕ))
    enter ip elem next = do
      found ← dirlookup sb devsw ip elem
      elim found [
        | none ↦ do iunlockput sb ip; pure none
        | some (child, _) ↦ do iunlockput sb ip; next child
      ]

    enter-Any :
        (ip : ℕ) (elem : List ℕ) (next : ℕ → Cmd Fs (Option (ℕ × List ℕ)))
        → ((child : ℕ) → Keeps Any (next child))
        → Keeps Any (enter ip elem next)
    enter-Any ip elem next h = Any-bind (dirlookup-Any ip elem) (λ found.
        Any-option found (search (any_rules, iunlockput-Any))
          (λ (child, _). Any-bind (iunlockput-Any sb ip) (λ _. h child)))

    -- What namex() does with an element and the path behind it, and then with the inode of the element.
    abbrev descend :
        ℕ → List ℕ → List ℕ → (ℕ → Cmd Fs (Option (ℕ × List ℕ))) → Cmd Fs (Option (ℕ × List ℕ))
    descend ip elem rest next = do
      ilock sb ip
      s ← get
      if (s.inode ip).type == t_dir
          then (if is_parent && is_empty rest
              then (do iunlock ip; pure (some (ip, elem)))
              else enter ip elem next)
          else (do iunlockput sb ip; pure none)

    descend-Any :
        (ip : ℕ) (elem rest : List ℕ) (next : ℕ → Cmd Fs (Option (ℕ × List ℕ)))
        → ((child : ℕ) → Keeps Any (next child))
        → Keeps Any (descend ip elem rest next)
    descend-Any ip elem rest next h = Any-bind (ilock-Any sb ip) (λ _.
        Any-bind (Keeps-get Any-order) (λ s.
          Any-if ((s.inode ip).type == t_dir)
            (Any-if (is_parent && is_empty rest) (search (any_rules, iunlock-Any))
              (enter-Any ip elem next h))
            (search (any_rules, iunlockput-Any))))

    descend_all-Any :
        (k ip : ℕ) (path name : List ℕ) (r : Option (List ℕ × List ℕ))
        → Takes path r
        → ((child : ℕ) (rest elem : List ℕ)
            → length rest < length path
            → Keeps Any (namex_loop sb devsw is_parent k child rest elem))
        → Keeps Any (elim r as (λ _. Cmd Fs (Option (ℕ × List ℕ))) [
          | none ↦ if is_parent then (do iput sb ip; pure none) else pure (some (ip, name))
          | some (elem, rest) ↦
              descend ip elem rest (λ child. namex_loop sb devsw is_parent k child rest elem)
        ])
    descend_all-Any k ip path name none h next = search (any_rules, iput-Any)
    descend_all-Any k ip path name (some (elem, rest)) h next =
        descend-Any ip elem rest (λ child. namex_loop sb devsw is_parent k child rest elem)
          (λ child. next child rest elem (length-Splits h))

    namex_loop-Any :
        (k ip : ℕ) (path name : List ℕ)
        → length path < k
        → Keeps Any (namex_loop sb devsw is_parent k ip path name)
    unfolding namex_loop
    namex_loop-Any zero ip path name lt = absurd (omega arith)
    namex_loop-Any (suc k) ip path name lt =
        descend_all-Any k ip path name (skipelem path) (skipelem-Takes path)
          (λ child rest elem shorter. namex_loop-Any k child rest elem (omega arith))

    pub namex-Any : (cwd : ℕ) (path : List ℕ) → Keeps Any (namex sb devsw is_parent cwd path)
    unfolding namex
    namex-Any cwd path =
        Any-bind (Any-if (is_absolute path) (Any-Sizes (iget-Sizes rootdev rootino)) (idup-Any cwd))
          (λ ip. namex_loop-Any (length path + 1) ip path [] (omega arith))
