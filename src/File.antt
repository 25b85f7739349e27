-- ===== src/File.antt =====
-- xv6-public/file.c: the table of open files, whose entries count the references that descriptors hold.
-- A pointer to a file is its index in the table.
pub mod Handles
pub mod Refs
mod Tests
use os_11740_assignment.Base.{
  ℕ, zero, suc, ◌+◌, ◌-◌, ◌^◌, Bool, true, false, List, [], ◌∷◌, Option, none, some, ◌==◌, ltb,
  if◌then◌else◌, update,
}
use os_11740_assignment.Base.Run.{Cmd, panic, fault, ok, pure, panics, get, modify, ◌>>=◌, ◌>>◌}
use os_11740_assignment.Mmu.{u32}
use os_11740_assignment.Kalloc.{is_positive}

-- NFILE
abbrev pub nfile : ℕ
nfile = 100

pub data FileType : Type 0 where
  fd_none fd_pipe fd_inode : FileType

-- `struct file`. `pipe` and `ip` are pointers; `ref` is the bit pattern of the C `int`.
pub record File : Type 0 where
  pub type : FileType
  pub ref : ℕ
  pub readable : Bool
  pub writable : Bool
  pub pipe : ℕ
  pub ip : ℕ
  pub off : ℕ

-- The calls into pipe.c, log.c and fs.c.
pub data Call : Type 0 where
  to_pipeclose : ℕ → Bool → Call
  to_begin_op to_end_op : Call
  to_iput : ℕ → Call

-- `ftable`, and the calls that were made, the last one first.
pub record Ftable : Type 0 where
  pub file : ℕ → File
  pub locked : Bool
  pub calls : List Call

abbrev pub acquire : Cmd Ftable (Unit {0})
acquire t = if t.locked then panic else ok tt (record t { locked = true })

abbrev pub release : Cmd Ftable (Unit {0})
release t = if t.locked then ok tt (record t { locked = false }) else panic

abbrev pub call : Call → Cmd Ftable (Unit {0})
call c = modify (λ t. record t { calls = c ∷ t.calls })

-- `f->ref = n`
abbrev pub set_ref : ℕ → ℕ → Ftable → Ftable
set_ref f n t = record t { file = update t.file f (record (t.file f) { ref = n }) }

abbrev pub fileinit : Cmd Ftable (Unit {0})
fileinit = modify (λ t. record t { locked = false })

-- The first of the `k` entries from `i` on with no reference.
unfoldable pub find_free : (ℕ → File) → ℕ → ℕ → Option ℕ
find_free file zero i = none
find_free file (suc k) i =
    let rest = find_free file k (i + 1) in if (file i).ref == 0 then some i else rest

unfoldable pub filealloc : Cmd Ftable (Option ℕ)
filealloc = do
  acquire
  t ← get
  elim (find_free t.file nfile 0) [
    | none ↦ do release; pure none
    | some f ↦ do modify (set_ref f 1); release; pure (some f)
  ]

-- A pointer out of the table is never made.
unfoldable pub filedup : ℕ → Cmd Ftable ℕ
filedup f = do
  acquire
  t ← get
  if is_positive (t.file f).ref
      then (do modify (set_ref f (u32 ((t.file f).ref + 1))); release; pure f)
      else panics

-- What fileclose() does with the copy `ff` of the entry, by its type, after it let go of the lock.
unfoldable pub close_last : FileType → File → Cmd Ftable (Unit {0})
close_last fd_none ff = pure tt
close_last fd_pipe ff = call (to_pipeclose ff.pipe ff.writable)
close_last fd_inode ff = do call to_begin_op; call (to_iput ff.ip); call to_end_op

unfoldable pub fileclose : ℕ → Cmd Ftable (Unit {0})
fileclose f = do
  acquire
  t ← get
  if is_positive (t.file f).ref
      then (do
        modify (set_ref f (u32 ((t.file f).ref + 2 ^ 32 - 1)))
        u ← get
        if is_positive (u.file f).ref then release else (do
          modify (λ v. record v {
            file = update v.file f (record (v.file f) { ref = 0; type = fd_none });
          })
          release
          close_last (u.file f).type (u.file f)))
      else panics
