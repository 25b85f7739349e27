-- ===== src/Descr/Tests.antt =====
-- Two processes with descriptors on the files of xv6-public/file.c.
use os_11740_assignment.Base.{
  ℕ, zero, suc, ◌<◌, ◌≤◌, ◌≡◌, ◌∙◌, refl, arith, true, false, Option, some, none, [], ◌==◌,
  if◌then◌else◌,
}
use os_11740_assignment.Base.Run.{ok}
use os_11740_assignment.File.{fd_none, fd_pipe, filealloc, filedup, find_free}
use os_11740_assignment.File.Handles.{uses}
use os_11740_assignment.Descr.{
  Descriptors, nofile, fd_slots, fd_slot, argfd, find_fd, fdalloc, sys_dup, copy_files, close_files,
}
use os_11740_assignment.Descr.Slots.{opened, uses-opened, length-opened, holders}
use os_11740_assignment.Descr.Handed.{Done}
use os_11740_assignment.Descr.Pipes.{
  sys_pipe, pipealloc, first_end, second_end, set_ends, pipe_fds, first_fd, second_fd,
}
use os_11740_assignment.Descr.Piped.{Pipes, sys_pipe-Pipes}
use os_11740_assignment.Descr.Owned.{IsOwned, Dups, sys_dup-Dups}
use os_11740_assignment.Descr.Loops.{SameBut, copy_files_end, close_files_end}

-- Descriptor 0 of process 0 is on file 5; no other descriptor is on a file.
abbrev fds : Descriptors
fds = record {
  ofile = λ i. if i == 0 then some 5 else none;
  table = record {
    file = λ f. record {
      type = if f == 5 then fd_pipe else fd_none;
      ref = if f == 5 then 1 else 0;
      readable = true;
      writable = true;
      pipe = 0x80400000;
      ip = 0;
      off = 0;
    };
    locked = false;
    calls = [];
  };
}

first_alone : (g k : ℕ) → holders g fds.ofile (suc k) ≡ (if 5 == g then 1 else 0)
unfolding holders
first_alone g zero = ground arith
first_alone g (suc k) = ground (arith, first_alone g k)

fds-IsOwned : IsOwned fds
fds-IsOwned = record {
  count = λ g.
      let all : uses g (opened fds.ofile fd_slots) ≡ (if 5 == g then 1 else 0) =
        uses-opened g fds.ofile fd_slots ∙ first_alone g 1023 in
      ground (arith, all);
  few = omega (arith, length-opened fds.ofile fd_slots);
  unlocked = refl;
}

-- The second descriptor is the lowest free one.
second : (t : Descriptors) × (sys_dup 0 0 fds ≡ ok (some 1) t)
unfolding sys_dup argfd fdalloc find_fd filedup
second = (_, refl)

sys_dup-Dups_example :
    (r : Option ℕ) × (t : Descriptors) × (sys_dup 0 0 fds ≡ ok r t) × Dups 0 0 fds r t × IsOwned t
sys_dup-Dups_example = sys_dup-Dups 0 0 fds (omega arith) fds-IsOwned

close_files_end_example :
    (t : Descriptors) × (close_files 0 16 0 fds ≡ ok tt t)
    × IsOwned t
    × ((n : ℕ) → 0 ≤ n → n < nofile → t.ofile (fd_slot 0 n) ≡ none)
    × SameBut 0 0 fds t
close_files_end_example = close_files_end 0 16 0 fds (omega arith) refl fds-IsOwned

second_process_free : (n : ℕ) → 0 ≤ n → n < nofile → fds.ofile (fd_slot 1 n) ≡ none
second_process_free n le lt = ground arith

copy_files_end_example :
    (t : Descriptors) × (copy_files 0 1 16 0 fds ≡ ok tt t)
    × IsOwned t
    × ((n : ℕ) → 0 ≤ n → n < nofile → t.ofile (fd_slot 1 n) ≡ fds.ofile (fd_slot 0 n))
    × SameBut 1 0 fds t
copy_files_end_example =
    copy_files_end 0 1 16 0 fds (omega arith) (omega arith) (λ e. absurd (omega (arith, e))) refl
      second_process_free fds-IsOwned

-- The two lowest free descriptors.
piped : (t : Descriptors) × (sys_pipe 0 (some 0x80401000) fds ≡ ok (some (1, 2)) t)
unfolding sys_pipe pipealloc filealloc find_free first_end second_end set_ends pipe_fds first_fd
    second_fd fdalloc find_fd
piped = (_, refl)

sys_pipe-Pipes_example : Done (Pipes 0 (some 0x80401000) fds) (sys_pipe 0 (some 0x80401000) fds)
sys_pipe-Pipes_example = sys_pipe-Pipes 0 (omega arith) (some 0x80401000) fds fds-IsOwned
