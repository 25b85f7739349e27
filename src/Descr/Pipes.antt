-- ===== src/Descr/Pipes.antt =====
-- pipealloc() of xv6-public/pipe.c, and what the call pipe of xv6-public/sysfile.c does behind the check of
-- its argument.
use os_11740_assignment.Base.{ℕ, Bool, true, false, Option, none, some, update}
use os_11740_assignment.Base.Run.{Cmd, pure, modify, ◌>>=◌, ◌>>◌}
use os_11740_assignment.File.{Ftable, fd_pipe, filealloc, fileclose}
use os_11740_assignment.Descr.{Descriptors, fd_slot, on_table, set_ofile, fdalloc}

-- The fields of one end of the pipe at `page`.
abbrev pub as_end : ℕ → Bool → Bool → ℕ → Ftable → Ftable
as_end f readable writable page t = record t {
  file =
      update t.file f (record (t.file f) {
        type = fd_pipe;
        readable = readable;
        writable = writable;
        pipe = page;
      });
}

abbrev pub set_end : ℕ → Bool → Bool → ℕ → Cmd Ftable (Unit {0})
set_end f readable writable page = modify (as_end f readable writable page)

-- What pipealloc() does with both files and the page, which may be missing.
unfoldable pub set_ends : ℕ → ℕ → Option ℕ → Cmd Ftable (Option (ℕ × ℕ))
set_ends f0 f1 none = do fileclose f0; fileclose f1; pure none
set_ends f0 f1 (some m) = do set_end f0 true false m; set_end f1 false true m; pure (some (f0, f1))

unfoldable pub second_end : Option ℕ → ℕ → Option ℕ → Cmd Ftable (Option (ℕ × ℕ))
second_end page f0 none = do fileclose f0; pure none
second_end page f0 (some f1) = set_ends f0 f1 page

unfoldable pub first_end : Option ℕ → Option ℕ → Cmd Ftable (Option (ℕ × ℕ))
first_end page none = pure none
first_end page (some f0) = do b ← filealloc; second_end page f0 b

-- `page` is what kalloc() gives. The fields of the page itself are those of Pipe.antt.
unfoldable pub pipealloc : Option ℕ → Cmd Ftable (Option (ℕ × ℕ))
pipealloc page = do a ← filealloc; first_end page a

unfoldable pub drop_pipe : ℕ → ℕ → Cmd Descriptors (Option (ℕ × ℕ))
drop_pipe rf wf = do on_table (fileclose rf); on_table (fileclose wf); pure none

unfoldable pub second_fd : ℕ → ℕ → ℕ → ℕ → Option ℕ → Cmd Descriptors (Option (ℕ × ℕ))
second_fd p rf wf fd0 none = do set_ofile (fd_slot p fd0) none; drop_pipe rf wf
second_fd p rf wf fd0 (some fd1) = pure (some (fd0, fd1))

unfoldable pub first_fd : ℕ → ℕ → ℕ → Option ℕ → Cmd Descriptors (Option (ℕ × ℕ))
first_fd p rf wf none = drop_pipe rf wf
first_fd p rf wf (some fd0) = do b ← fdalloc p wf; second_fd p rf wf fd0 b

unfoldable pub pipe_fds : ℕ → Option (ℕ × ℕ) → Cmd Descriptors (Option (ℕ × ℕ))
pipe_fds p none = pure none
pipe_fds p (some (rf, wf)) = do a ← fdalloc p rf; first_fd p rf wf a

-- The two descriptors; `none` stands for -1.
unfoldable pub sys_pipe : ℕ → Option ℕ → Cmd Descriptors (Option (ℕ × ℕ))
sys_pipe p page = do made ← on_table (pipealloc page); pipe_fds p made
