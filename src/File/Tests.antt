-- ===== src/File/Tests.antt =====
-- The theorems of file.c at a table with two open files.
use os_11740_assignment.Base.{ℕ, ◌≡◌, refl, arith, true, false, List, [], ◌∷◌, ◌==◌, if◌then◌else◌}
use os_11740_assignment.Base.Run.{ok}
use os_11740_assignment.File.{
  Ftable, fd_none, fd_pipe, fd_inode, to_begin_op, to_end_op, to_iput, fileclose,
}
use os_11740_assignment.File.Handles.{uses, without, Counts}
use os_11740_assignment.File.Refs.{fileclose_last-Counts}

-- Two handles are on a pipe at entry 0, and one on a file at entry 2.
abbrev handles : List ℕ
handles = 0 ∷ 2 ∷ 0 ∷ []

abbrev table : Ftable
table = record {
  file = λ f. record {
    type = if f == 0 then fd_pipe else (if f == 2 then fd_inode else fd_none);
    ref = if f == 0 then 2 else (if f == 2 then 1 else 0);
    readable = true;
    writable = false;
    pipe = 0x80400000;
    ip = 0x80500000;
    off = 0;
  };
  locked = false;
  calls = [];
}

table-Counts : Counts handles table
unfolding uses
table-Counts = record { count = λ f. ground arith; few = omega arith; unlocked = refl }

fileclose_last-Counts_example :
    (u : Ftable) × (fileclose 2 table ≡ ok tt u)
    × Counts (without 2 handles) u
    × (u.calls ≡ to_end_op ∷ to_iput 0x80500000 ∷ to_begin_op ∷ [])
    × ((u.file 2).type ≡ fd_none)
unfolding uses
fileclose_last-Counts_example = fileclose_last-Counts table-Counts 2 refl
