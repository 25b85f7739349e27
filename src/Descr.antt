-- ===== src/Descr.antt =====
-- The descriptors of xv6-public/sysfile.c, and the loops of fork() and exit() in xv6-public/proc.c over
-- them, on the table of open files. Descriptor `fd` of process `p` is slot NOFILE * p + fd of one table.
pub mod Slots
pub mod Owned
pub mod Loops
pub mod Pipes
pub mod Handed
pub mod Moved
pub mod Piped
mod Tests
use os_11740_assignment.Base.{
  ℕ, zero, suc, ◌+◌, ◌*◌, Bool, true, false, ◌==◌, leb, Option, none, some, if◌then◌else◌, update,
}
use os_11740_assignment.Base.Run.{
  Run, Cmd, ok, panic, fault, waits, out_of_fuel, pure, get, modify, ◌>>=◌, ◌>>◌,
}
use os_11740_assignment.Proc.{nproc}
use os_11740_assignment.File.{Ftable, filedup, fileclose}

-- NOFILE
abbrev pub nofile : ℕ
nofile = 16

-- NPROC * NOFILE
abbrev pub fd_slots : ℕ
fd_slots = 1024

-- `ofile` of every process, of the files that the descriptors stand for, and the table of open files.
pub record Descriptors : Type 0 where
  pub ofile : ℕ → Option ℕ
  pub table : Ftable

-- What is left of a run on the table of open files.
abbrev pub with_ofile {κ} : {A : Type κ} → (ℕ → Option ℕ) → Run Ftable A → Run Descriptors A
with_ofile o (ok a t) = ok a (record { ofile = o; table = t })
with_ofile o panic = panic
with_ofile o fault = fault
with_ofile o waits = waits
with_ofile o out_of_fuel = out_of_fuel

abbrev pub on_table {κ} : {A : Type κ} → Cmd Ftable A → Cmd Descriptors A
on_table m s = with_ofile s.ofile (m s.table)

abbrev pub set_ofile : ℕ → Option ℕ → Cmd Descriptors (Unit {0})
set_ofile i f = modify (λ s. record s { ofile = update s.ofile i f })

abbrev pub fd_slot : ℕ → ℕ → ℕ
fd_slot p fd = nofile * p + fd

-- The file of a descriptor, which is the bit pattern of an int.
unfoldable pub argfd : ℕ → ℕ → Cmd Descriptors (Option ℕ)
argfd p fd = do s ← get; if leb nofile fd then pure none else pure (s.ofile (fd_slot p fd))

-- The loop of fdalloc() over the `k` descriptors from `fd` on.
unfoldable pub find_fd : (ℕ → Option ℕ) → ℕ → ℕ → ℕ → Option ℕ
find_fd o p zero fd = none
find_fd o p (suc k) fd =
    let rest = find_fd o p k (fd + 1) in elim (o (fd_slot p fd)) [ none ↦ some fd | some f ↦ rest ]

unfoldable pub fdalloc : ℕ → ℕ → Cmd Descriptors (Option ℕ)
fdalloc p f = do
  s ← get
  elim (find_fd s.ofile p nofile 0) [
    | none ↦ pure none
    | some fd ↦ do set_ofile (fd_slot p fd) (some f); pure (some fd)
  ]

-- `none` stands for -1.
unfoldable pub sys_dup : ℕ → ℕ → Cmd Descriptors (Option ℕ)
sys_dup p fd = do
  r ← argfd p fd
  elim r [
    | none ↦ pure none
    | some f ↦ do
      new ← fdalloc p f
      elim new [ none ↦ pure none | some n ↦ do on_table (filedup f); pure (some n) ]
  ]

-- `true` stands for 0 and `false` for -1.
unfoldable pub sys_close : ℕ → ℕ → Cmd Descriptors Bool
sys_close p fd = do
  r ← argfd p fd
  elim r [
    | none ↦ pure false
    | some f ↦ do set_ofile (fd_slot p fd) none; on_table (fileclose f); pure true
  ]

-- np->ofile[i] = filedup(curproc->ofile[i]), for a file that is there
unfoldable pub copy_file : ℕ → Option ℕ → Cmd Descriptors (Unit {0})
copy_file i none = pure tt
copy_file i (some f) = do on_table (filedup f); set_ofile i (some f)

-- The loop of fork() over the `k` descriptors from `fd` on, for the new process `q`.
unfoldable pub copy_files : ℕ → ℕ → ℕ → ℕ → Cmd Descriptors (Unit {0})
copy_files p q zero fd = pure tt
copy_files p q (suc k) fd =
    let rest = copy_files p q k (fd + 1) in
    do s ← get; copy_file (fd_slot q fd) (s.ofile (fd_slot p fd)); rest

-- fileclose(curproc->ofile[fd]); curproc->ofile[fd] = 0, for a file that is there
unfoldable pub close_file : ℕ → Option ℕ → Cmd Descriptors (Unit {0})
close_file i none = pure tt
close_file i (some f) = do on_table (fileclose f); set_ofile i none

-- The loop of exit() over the `k` descriptors from `fd` on.
unfoldable pub close_files : ℕ → ℕ → ℕ → Cmd Descriptors (Unit {0})
close_files p zero fd = pure tt
close_files p (suc k) fd =
    let rest = close_files p k (fd + 1) in
    do s ← get; close_file (fd_slot p fd) (s.ofile (fd_slot p fd)); rest
