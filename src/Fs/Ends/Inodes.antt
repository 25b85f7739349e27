-- ===== src/Fs/Ends/Inodes.antt =====
-- The inode cache, readi() and writei() of xv6-public/fs.c end.
use os_11740_assignment.Base.{
  ℕ, zero, suc, ◌+◌, ◌-◌, ◌/◌, ◌%◌, ◌<◌, ◌≡◌, refl, sym, subst, arith, false, inl, inr, ◌==◌,
  Option, none, some, List, length, length-drop, drop, take, ◌++◌, [],
}
use os_11740_assignment.Base.Run.{Run, ok, panic, fault, waits, out_of_fuel, Cmd, pure}
use os_11740_assignment.Base.Ends.{Ends, returns, panicked, Keeps, Keeps-pure, Keeps-test}
use os_11740_assignment.Fs.{Superblock, Inode, Fs, bsize}
use os_11740_assignment.Fs.Icache.{
  recycle, iget, idup, iunlock, load_inode, ilock, iput, iunlockput, ialloc_loop, ialloc,
}
use os_11740_assignment.Fs.Icache.Found.{referenced, with_inode, Igets, iget-Igets}
use os_11740_assignment.Fs.Content.{
  Devsw, chunk, get_bytes, put_bytes, read_loop, read_device, readi, write_loop, write_device,
  writei,
}
use os_11740_assignment.Fs.Ends.{
  Sizes, Any, Any-order, Any-Sizes, change-Sizes, sizes_rules, any_rules, Sizes-pure, Sizes-bind,
  Sizes-if, Sizes-bread, Any-bind, Any-if, bmap-Sizes, iupdate-Sizes, itrunc-Any,
}

abbrev pub QuietRead : Option (ℕ → ℕ → Cmd Fs (Option (List ℕ))) → Type 0
QuietRead none = Unit
QuietRead (some f) = (ip n : ℕ) → Keeps Sizes (f ip n)

abbrev pub QuietWrite : Option (ℕ → List ℕ → Cmd Fs (Option ℕ)) → Type 0
QuietWrite none = Unit
QuietWrite (some f) = (ip : ℕ) (src : List ℕ) → Keeps Any (f ip src)

-- The device functions end, and reading leaves the sizes of the inodes alone.
pub record IsQuiet (devsw : Devsw) : Type 0 where
  pub read : (major : ℕ) → QuietRead (devsw.read major)
  pub write : (major : ℕ) → QuietWrite (devsw.write major)

with_inode-Sizes :
    (i : ℕ) (f : Inode → Inode) (s : Fs)
    → (f (s.inode i)).size ≡ (s.inode i).size
    → Sizes s (with_inode i f s)
with_inode-Sizes i f s e j = ground arith

Ends-Igets : (dev inum : ℕ) (s : Fs) (r : Run Fs ℕ) → Igets dev inum s r → Ends (Sizes s) r
Ends-Igets dev inum s (ok i t) (_, inl (_, e)) =
    returns (subst (Sizes s) (sym e) (with_inode-Sizes i referenced s refl))
Ends-Igets dev inum s (ok i t) (_, inr (_, _, e)) =
    returns (subst (Sizes s) (sym e) (with_inode-Sizes i (recycle dev inum) s refl))
Ends-Igets dev inum s panic h = panicked
Ends-Igets dev inum s fault h = elim h [ ]
Ends-Igets dev inum s waits h = elim h [ ]
Ends-Igets dev inum s out_of_fuel h = elim h [ ]

pub iget-Sizes : (dev inum : ℕ) → Keeps Sizes (iget dev inum)
iget-Sizes dev inum = record {
  at = λ s. Ends-Igets dev inum s (iget dev inum s) (iget-Igets dev inum s);
}

pub idup-Any : (ip : ℕ) → Keeps Any (idup ip)
unfolding idup
idup-Any ip = search any_rules

pub iunlock-Any : (ip : ℕ) → Keeps Any (iunlock ip)
unfolding iunlock
iunlock-Any ip = search any_rules depth 12

module _ (sb : Superblock) where
  load_inode-Any : (ip : ℕ) → Keeps Any (load_inode sb ip)
  unfolding load_inode
  load_inode-Any ip = search any_rules depth 16

  pub ilock-Any : (ip : ℕ) → Keeps Any (ilock sb ip)
  unfolding ilock
  ilock-Any ip = search (any_rules, load_inode-Any) depth 16

  pub iput-Any : (ip : ℕ) → Keeps Any (iput sb ip)
  unfolding iput
  iput-Any ip = search (any_rules, itrunc-Any, Any-Sizes, iupdate-Sizes) depth 20

  pub iunlockput-Any : (ip : ℕ) → Keeps Any (iunlockput sb ip)
  unfolding iunlockput
  iunlockput-Any ip = search (any_rules, iunlock-Any, iput-Any)

  ialloc_loop-Any : (dev type k inum : ℕ) → Keeps Any (ialloc_loop sb dev type k inum)
  unfolding ialloc_loop
  ialloc_loop-Any dev type zero inum = search any_rules
  ialloc_loop-Any dev type (suc k) inum =
      search (any_rules, Any-Sizes, iget-Sizes, ialloc_loop-Any dev type k) depth 16

  pub ialloc-Any : (dev type : ℕ) → Keeps Any (ialloc sb dev type)
  unfolding ialloc
  ialloc-Any dev type = ialloc_loop-Any dev type (sb.ninodes - 1) 1

  module _ (devsw : Devsw) where
    read_loop-Sizes : (k ip off n : ℕ) → n < k → Keeps Sizes (read_loop sb devsw k ip off n)
    unfolding read_loop
    read_loop-Sizes zero ip off n lt = absurd (omega arith)
    read_loop-Sizes (suc k) ip off n lt =
        Keeps-test (n == 0) (λ e. Sizes-pure [])
          (λ e. Sizes-bind (bmap-Sizes sb ip (off / bsize)) (λ addr.
            Sizes-bind (Sizes-bread addr) (λ d.
              Sizes-bind (read_loop-Sizes k ip (off + chunk off n) (n - chunk off n) (ground arith))
                (λ more. Sizes-pure (get_bytes d (off % bsize) (chunk off n) ++ more)))))

    read_all-Sizes : (m ip off : ℕ) → Keeps Sizes (read_loop sb devsw (m + 1) ip off m)
    read_all-Sizes m ip off = read_loop-Sizes (m + 1) ip off m (omega arith)

    rest_shorter :
        {k : ℕ} (off : ℕ) (src : List ℕ)
        → length src < suc k
        → (length src == 0) ≡ false
        → length (drop (chunk off (length src)) src) < k
    rest_shorter off src lt e = rw length-drop (ground arith)

    write_loop-Any :
        (k ip off : ℕ) (src : List ℕ)
        → length src < k
        → Keeps Any (write_loop sb devsw k ip off src)
    unfolding write_loop
    write_loop-Any zero ip off src lt = absurd (omega arith)
    write_loop-Any (suc k) ip off src lt =
        Keeps-test (length src == 0) (λ e. search any_rules)
          (λ e. Any-bind (Any-Sizes (bmap-Sizes sb ip (off / bsize))) (λ addr.
            Any-bind
              (Any-Sizes
                (change-Sizes addr (put_bytes (off % bsize) (take (chunk off (length src)) src))))
              (λ _.
                write_loop-Any k ip (off + chunk off (length src))
                  (drop (chunk off (length src)) src) (rest_shorter off src lt e))))

    write_all-Any :
        (ip off : ℕ) (src : List ℕ) → Keeps Any (write_loop sb devsw (length src + 1) ip off src)
    write_all-Any ip off src = write_loop-Any (length src + 1) ip off src (omega arith)

    module _ (quiet : IsQuiet devsw) where
      quiet_read :
          (r : Option (ℕ → ℕ → Cmd Fs (Option (List ℕ)))) (ip n : ℕ)
          → QuietRead r
          → Keeps Sizes
              (elim r as (λ _. Cmd Fs (Option (List ℕ))) [ none ↦ pure none | some f ↦ f ip n ])
      quiet_read none ip n q = search sizes_rules
      quiet_read (some f) ip n q = q ip n

      quiet_write :
          (r : Option (ℕ → List ℕ → Cmd Fs (Option ℕ))) (ip : ℕ) (src : List ℕ)
          → QuietWrite r
          → Keeps Any (elim r as (λ _. Cmd Fs (Option ℕ)) [ none ↦ pure none | some f ↦ f ip src ])
      quiet_write none ip src q = search any_rules
      quiet_write (some f) ip src q = q ip src

      read_device-Sizes : (ip major n : ℕ) → Keeps Sizes (read_device sb devsw ip major n)
      unfolding read_device
      read_device-Sizes ip major n =
          Sizes-if _ (Sizes-pure none) (quiet_read (devsw.read major) ip n (quiet.read major))

      write_device-Any :
          (ip major : ℕ) (src : List ℕ) → Keeps Any (write_device sb devsw ip major src)
      unfolding write_device
      write_device-Any ip major src =
          Any-if _ (Keeps-pure Any-order none)
            (quiet_write (devsw.write major) ip src (quiet.write major))

      pub readi-Sizes : (ip off n : ℕ) → Keeps Sizes (readi sb devsw ip off n)
      unfolding readi
      readi-Sizes ip off n = search (sizes_rules, read_device-Sizes, read_all-Sizes) depth 20

      pub writei-Any : (ip off : ℕ) (src : List ℕ) → Keeps Any (writei sb devsw ip off src)
      unfolding writei
      writei-Any ip off src =
          search (any_rules, write_device-Any, write_all-Any, Any-Sizes, iupdate-Sizes) depth 24
