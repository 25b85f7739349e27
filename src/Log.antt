-- ===== src/Log.antt =====
-- xv6-public/log.c: the redo log of the file system, over a disk that writes one block at a time and
-- may lose power between two writes.
pub mod Replay
pub mod Ends
pub mod Recovery
pub mod Commit
pub mod Space
mod Tests
use os_11740_assignment.Base.{
  ℕ, zero, suc, ◌+◌, ◌-◌, ◌*◌, ◌%◌, ◌^◌, Bool, true, false, ◌||◌, ◌==◌, ltb, leb, if◌then◌else◌,
  update, List, [], ◌∷◌, ◌++◌, length, get_or,
}

-- The data of a block, as 32-bit words, and a disk.
abbrev pub Block : Type 0
Block = ℕ → ℕ

abbrev pub Disk : Type 0
Disk = ℕ → Block

-- LOGSIZE and MAXOPBLOCKS of param.h
abbrev pub logsize : ℕ
logsize = 30

abbrev pub maxopblocks : ℕ
maxopblocks = 10

-- `struct log`, with the disk and the buffer cache. `cache b` is the data that bread() of block `b`
-- returns: a buffer that was changed and not yet written stays in the cache, by B_DIRTY, and any other
-- block reads as the disk has it. `lh` is the in-memory header, the first `lh.n` entries of its array.
-- `life` counts the block writes until the power fails.
pub record Log : Type 0 where
  pub disk : Disk
  pub cache : Disk
  pub lh : List ℕ
  pub outstanding : ℕ
  pub committing : Bool
  pub life : ℕ

-- A crash leaves the disk. `waits` is a call of sleep().
pub data Result (A : Type 0) : Type 0 where
  done : A → Log → Result A
  crashed : Disk → Result A
  waits : Result A
  panic : Result A
  fault : Result A

abbrev pub Cmd : Type 0 → Type 0
Cmd A = Log → Result A

abbrev pub pure : {A : Type 0} → A → Cmd A
pure a s = done a s

module _ {A B : Type 0} where
  abbrev pub and_then : Result A → (A → Cmd B) → Result B
  and_then (done a s) k = k a s
  and_then (crashed d) k = crashed d
  and_then waits k = waits
  and_then panic k = panic
  and_then fault k = fault

  infixl 5 ◌>>=◌ ◌>>◌
  abbrev pub ◌>>=◌ : Cmd A → (A → Cmd B) → Cmd B
  m >>= k = λ s. and_then (m s) k

  abbrev pub ◌>>◌ : Cmd A → Cmd B → Cmd B
  m >> n = m >>= λ _. n

-- bread(b)->data
abbrev pub bread : ℕ → Cmd Block
bread b s = done (s.cache b) s

-- bwrite() of block `b` with new data.
unfoldable pub bwrite : ℕ → Block → Cmd (Unit {0})
bwrite b block s =
    if s.life == 0
    then crashed s.disk
    else done tt (record s {
      disk = update s.disk b block;
      cache = update s.cache b block;
      life = s.life - 1;
    })

-- `struct logheader` in a block: the count, then the block numbers. Words behind them stay.
abbrev pub header : List ℕ → Block → Block
header lh old i =
    if i == 0 then length lh else (if leb i (length lh) then get_or lh (i - 1) 0 else old i)

-- The `n` words from index `i` on.
abbrev pub words : Block → ℕ → ℕ → List ℕ
words block i zero = []
words block i (suc n) = block i ∷ words block (i + 1) n

-- `start` is `log.start`, which initlog() takes from the superblock.
module _ (start : ℕ) where
  -- The loops of install_trans() and write_log(), from entry `tail` on.
  unfoldable pub install_loop : List ℕ → ℕ → Cmd (Unit {0})
  install_loop [] tail = pure tt
  install_loop (b ∷ bs) tail = do
    block ← bread (start + tail + 1)
    bwrite b block
    install_loop bs (tail + 1)

  unfoldable pub install_trans : Cmd (Unit {0})
  install_trans s = install_loop s.lh 0 s

  unfoldable pub write_log_loop : List ℕ → ℕ → Cmd (Unit {0})
  write_log_loop [] tail = pure tt
  write_log_loop (b ∷ bs) tail = do
    block ← bread b
    bwrite (start + tail + 1) block
    write_log_loop bs (tail + 1)

  unfoldable pub write_log : Cmd (Unit {0})
  write_log s = write_log_loop s.lh 0 s

  -- A count above LOGSIZE would run over the array `log.lh.block`; a negative one copies nothing.
  unfoldable pub read_head : Cmd (Unit {0})
  read_head s =
      let n = s.cache start 0 in
      if leb (2 ^ 31) n
      then done tt (record s { lh = [] })
      else (if ltb logsize n then fault else done tt (record s { lh = words (s.cache start) 1 n }))

  unfoldable pub write_head : Cmd (Unit {0})
  write_head s = bwrite start (header s.lh (s.cache start)) s

  abbrev pub clear_lh : Cmd (Unit {0})
  clear_lh s = done tt (record s { lh = [] })

  unfoldable pub recover_from_log : Cmd (Unit {0})
  recover_from_log = do read_head; install_trans; clear_lh; write_head

  -- The body of commit() where there is something to commit.
  unfoldable pub commit_blocks : Cmd (Unit {0})
  commit_blocks = do write_log; write_head; install_trans; clear_lh; write_head

  unfoldable pub commit : Cmd (Unit {0})
  commit s = if ltb 0 (length s.lh) then commit_blocks s else done tt s

  unfoldable pub end_op : Cmd (Unit {0})
  end_op s =
      let left = (s.outstanding + 2 ^ 32 - 1) % 2 ^ 32 in
      if s.committing
      then panic
      else (if left == 0
          then (commit >> λ t. done tt (record t { committing = false }))
              (record s { outstanding = left; committing = true })
          else done tt (record s { outstanding = left }))

-- One round of begin_op()'s loop: the operation is admitted, or the caller sleeps and tries again.
unfoldable pub begin_op : Cmd (Unit {0})
begin_op s =
    if s.committing
    then waits
    else (if ltb logsize (length s.lh + (s.outstanding + 1) * maxopblocks)
        then waits
        else done tt (record s { outstanding = s.outstanding + 1 }))

-- The entry for block `b` is there already, or goes to the end.
abbrev pub absorb : ℕ → List ℕ → List ℕ
absorb b [] = b ∷ []
absorb b (c ∷ cs) = if c == b then c ∷ cs else c ∷ absorb b cs

-- `size` is `log.size`.
unfoldable pub log_write : ℕ → ℕ → Cmd (Unit {0})
log_write size b s =
    if leb logsize (length s.lh) || leb (size - 1) (length s.lh)
    then panic
    else (if ltb s.outstanding 1 then panic else done tt (record s { lh = absorb b s.lh }))
