-- ===== src/Pipe.antt =====
-- xv6-public/pipe.c: a pipe, whose bytes go through a ring of 512. A call that sleeps gives up the lock
-- and is an outcome of its own; when it wakes, it takes the lock again and goes on with what is left.
pub mod Ring
pub mod Loops
pub mod Transfer
mod Tests
use os_11740_assignment.Base.{
  ℕ, zero, suc, ◌+◌, ◌%◌, ◌^◌, Bool, true, false, ◌&&◌, ◌==◌, List, [], ◌∷◌, length, if◌then◌else◌,
  update,
}
use os_11740_assignment.Base.Run.{Cmd, panic, ok, pure, get, modify, ◌>>=◌, ◌>>◌}
use os_11740_assignment.Mmu.{u32}

-- PIPESIZE
abbrev pub pipesize : ℕ
pipesize = 512

-- What a process sleeps on: `&p->nread` for readers, `&p->nwrite` for writers.
pub data Channel : Type 0 where
  nread_channel nwrite_channel : Channel

-- `struct pipe`, and the channels that were woken, the last one first. `locked` says that this
-- processor holds `p->lock`.
pub record Pipe : Type 0 where
  pub bytes : ℕ → ℕ
  pub nread : ℕ
  pub nwrite : ℕ
  pub readopen : Bool
  pub writeopen : Bool
  pub locked : Bool
  pub woken : List Channel

abbrev pub acquire : Cmd Pipe (Unit {0})
acquire p = if p.locked then panic else ok tt (record p { locked = true })

abbrev pub release : Cmd Pipe (Unit {0})
release p = if p.locked then ok tt (record p { locked = false }) else panic

abbrev pub wakeup : Channel → Cmd Pipe (Unit {0})
wakeup c = modify (λ p. record p { woken = c ∷ p.woken })

-- The fields that pipealloc() sets, when it has both files and the page.
abbrev pub new_pipe : (ℕ → ℕ) → Pipe
new_pipe page = record {
  bytes = page;
  nread = 0;
  nwrite = 0;
  readopen = true;
  writeopen = true;
  locked = false;
  woken = [];
}

-- Whether the page of the pipe is freed.
unfoldable pub pipeclose : Bool → Cmd Pipe Bool
pipeclose writable = do
  acquire
  if writable
      then (do modify (λ p. record p { writeopen = false }); wakeup nread_channel)
      else (do modify (λ p. record p { readopen = false }); wakeup nwrite_channel)
  p ← get
  release
  pure (if p.readopen then false else (if p.writeopen then false else true))

-- `n`, -1, or asleep on `&p->nwrite` with the bytes that are left.
pub data Write : Type 0 where
  wrote : ℕ → Write
  write_fails : Write
  write_sleeps : List ℕ → Write

-- p->data[p->nwrite++ % PIPESIZE] = c
abbrev pub put_byte : ℕ → Pipe → Pipe
put_byte c p = record p {
  bytes = update p.bytes (p.nwrite % pipesize) c;
  nwrite = u32 (p.nwrite + 1);
}

-- The branch of a full pipe.
unfoldable pub write_full : Bool → List ℕ → Cmd Pipe Write
write_full killed cs p =
    (if p.readopen
        then (if killed
            then (do release; pure write_fails)
            else (do wakeup nread_channel; release; pure (write_sleeps cs)))
        else (do release; pure write_fails))
      p

-- The loop of pipewrite() for the bytes that are left, of `n` in all.
unfoldable pub write_loop : Bool → ℕ → List ℕ → Cmd Pipe Write
unfolding write_full
write_loop killed n [] = do wakeup nread_channel; release; pure (wrote n)
write_loop killed n (c ∷ cs) =
    let rest = write_loop killed n cs in
    do
      p ← get
      if p.nwrite == u32 (p.nread + pipesize)
          then write_full killed (c ∷ cs)
          else (do modify (put_byte c); rest)

-- From sleep() on, for a writer that has the bytes `cs` of `n` left.
unfoldable pub write_on : Bool → ℕ → List ℕ → Cmd Pipe Write
write_on killed n cs = do acquire; write_loop killed n cs

-- `cs` are the bytes at `addr`.
unfoldable pub pipewrite : Bool → List ℕ → Cmd Pipe Write
unfolding write_on
pipewrite killed cs = write_on killed (length cs) cs

-- The bytes that were read, -1, or asleep on `&p->nread`.
pub data Read : Type 0 where
  read_bytes : List ℕ → Read
  read_fails : Read
  read_sleeps : Read

-- The loop that copies, for at most `n` bytes.
unfoldable pub read_loop : ℕ → Cmd Pipe (List ℕ)
read_loop zero = pure []
read_loop (suc n) =
    let rest = read_loop n in
    do
      p ← get
      if p.nread == p.nwrite then pure [] else (do
        modify (λ q. record q { nread = u32 (q.nread + 1) })
        cs ← rest
        pure (p.bytes (p.nread % pipesize) ∷ cs))

-- A reader that wakes goes through the test again, as at the start.
unfoldable pub piperead : Bool → ℕ → Cmd Pipe Read
piperead killed n = do
  acquire
  p ← get
  if (p.nread == p.nwrite) && p.writeopen
      then (do release; pure (if killed then read_fails else read_sleeps))
      else (do cs ← read_loop n; wakeup nwrite_channel; release; pure (read_bytes cs))
