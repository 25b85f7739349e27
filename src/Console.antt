-- ===== src/Console.antt =====
-- xv6-public/console.c and uartputc() of xv6-public/uart.c: the screen, the serial port and the input
-- line. A character is an int from 0 to 255, or BACKSPACE. The polling of the serial port before a byte
-- is sent is left out, and so is the lock of the inode, which a read and a write give up and take back.
pub mod Screen
pub mod Stored
pub mod Keys
pub mod Typing
pub mod Intr
pub mod Lines
pub mod RoundTrip
pub mod Tests
use os_11740_assignment.Base.{
  ℕ, zero, suc, ◌+◌, ◌-◌, ◌*◌, ◌/◌, ◌%◌, ◌^◌, Bool, true, false, ◌&&◌, ◌||◌, ◌==◌, ◌!=◌, ltb, leb,
  List, [], ◌∷◌, ◌++◌, if◌then◌else◌, update,
}
use os_11740_assignment.Base.Run.{
  Cmd, panic, ok, pure, panics, spins, get, modify, when, ◌>>=◌, ◌>>◌,
}
use os_11740_assignment.Mmu.{u32}

-- `input`: the ring of characters with its read, write and edit indices; `crt` and `cursor`: the cells
-- of the screen and the position in the registers of its controller; `serial`: the bytes that were sent
-- to the serial port, the last one first, and whether there is one; `wakeups`: the calls of
-- wakeup(&input.r); `locked`: whether this processor holds `cons.lock`.
pub record Console : Type 0 where
  pub buf : ℕ → ℕ
  pub r : ℕ
  pub w : ℕ
  pub e : ℕ
  pub crt : ℕ → ℕ
  pub cursor : ℕ
  pub uart : Bool
  pub serial : List ℕ
  pub wakeups : ℕ
  pub panicked : Bool
  pub locked : Bool

abbrev pub acquire : Cmd Console (Unit {0})
acquire s = if s.locked then panic else ok tt (record s { locked = true })

abbrev pub release : Cmd Console (Unit {0})
release s = if s.locked then ok tt (record s { locked = false }) else panic

-- INPUT_BUF and BACKSPACE
abbrev pub input_buf : ℕ
input_buf = 128

abbrev pub backspace : ℕ
backspace = 256

-- A cell that shows a character black on white: (c&0xff) | 0x0700
abbrev pub cell : ℕ → ℕ
cell c = c % 256 + 1792

unfoldable pub uartputc : ℕ → Cmd Console (Unit {0})
uartputc c = do s ← get; when s.uart (modify (λ t. record t { serial = c % 256 ∷ t.serial }))

-- The character is put at `pos`, or moves it.
abbrev pub put_char : ℕ → ℕ → (ℕ → ℕ) → ℕ → ℕ
put_char c pos crt = if (c == b'\n') || (c == backspace) then crt else update crt pos (cell c)

abbrev pub move_cursor : ℕ → ℕ → ℕ
move_cursor c pos =
    if c == b'\n' then pos + (80 - pos % 80) else (if c == backspace then pos - 1 else pos + 1)

-- Scroll up: memmove() of 23 rows, and memset() of the cells from `pos` to the end of row 24.
abbrev pub scroll : ℕ → (ℕ → ℕ) → ℕ → ℕ
scroll pos crt x =
    if leb pos x && ltb x (24 * 80) then 0 else (if ltb x (23 * 80) then crt (x + 80) else crt x)

unfoldable pub cgaputc : ℕ → Cmd Console (Unit {0})
cgaputc c = do
  s ← get
  let pos = move_cursor c s.cursor
  let crt = put_char c s.cursor s.crt
  if ltb (25 * 80) pos
      then panics
      else (if leb 24 (pos / 80)
          then modify (λ t. record t {
            crt = update (scroll (pos - 80) crt) (pos - 80) (cell b' ');
            cursor = (pos - 80) % 2 ^ 16;
          })
          else modify (λ t. record t { crt = update crt pos (cell b' '); cursor = pos % 2 ^ 16 }))

unfoldable pub consputc : ℕ → Cmd Console (Unit {0})
unfolding uartputc
consputc c = do
  s ← get
  if s.panicked then spins else (do
    if c == backspace then (do uartputc 8; uartputc b' '; uartputc 8) else uartputc c
    cgaputc c)

-- C('D'), C('H'), C('P') and C('U')
abbrev pub ctrl_d : ℕ
ctrl_d = 4

abbrev pub ctrl_h : ℕ
ctrl_h = 8

abbrev pub ctrl_p : ℕ
ctrl_p = 16

abbrev pub ctrl_u : ℕ
ctrl_u = 21

abbrev pub rubout : ℕ
rubout = 127

-- input.e--, and the character is wiped out.
unfoldable pub erase : Cmd Console (Unit {0})
erase = do modify (λ s. record s { e = u32 (s.e + 2 ^ 32 - 1) }); consputc backspace

-- The loop that kills the line, with a bound on its rounds.
unfoldable pub kill_line : ℕ → Cmd Console (Unit {0})
kill_line zero = spins
kill_line (suc k) =
    let rest = kill_line k in
    do
      s ← get
      when ((s.e != s.w) && (s.buf (u32 (s.e + 2 ^ 32 - 1) % input_buf) != b'\n')) (do erase; rest)

-- c = (c == '\r') ? '\n' : c
abbrev pub newline : ℕ → ℕ
newline c = if c == b'\r' then b'\n' else c

-- The line is finished, and those who wait for it are woken.
unfoldable pub finish_line : Cmd Console (Unit {0})
finish_line = modify (λ s. record s { w = s.e; wakeups = s.wakeups + 1 })

-- A character that is not an editing key.
unfoldable pub type_char : ℕ → Cmd Console (Unit {0})
type_char c = do
  s ← get
  when ((c != 0) && ltb (u32 (s.e + 2 ^ 32 - s.r)) input_buf) (do
    modify (λ t. record t {
      buf = update t.buf (t.e % input_buf) (newline c % 256);
      e = u32 (t.e + 1);
    })
    consputc (newline c)
    t ← get
    when ((newline c == b'\n') || ((newline c == ctrl_d) || (t.e == u32 (t.r + input_buf))))
        finish_line)

-- One round of the loop of consoleintr(): whether it asks for the list of processes.
unfoldable pub key : ℕ → Cmd Console Bool
key c =
    if c == ctrl_p
    then pure true
    else (if c == ctrl_u
        then (do kill_line (input_buf + 1); pure false)
        else (if (c == ctrl_h) || (c == rubout)
            then (do s ← get; when (s.e != s.w) erase; pure false)
            else (do type_char c; pure false)))

-- The loop over the characters that getc() gives before a negative number.
unfoldable pub intr_loop : List ℕ → Bool → Cmd Console Bool
intr_loop [] dump = pure dump
intr_loop (c ∷ cs) dump = do listing ← key c; intr_loop cs (dump || listing)

-- Whether procdump() is called at the end.
unfoldable pub consoleintr : List ℕ → Cmd Console Bool
consoleintr chars = do acquire; dump ← intr_loop chars false; release; pure dump

-- How far consoleread() comes: the bytes that were copied; -1, when the process was killed; or the bytes
-- so far and the number of those that are left, when it sleeps on &input.r.
pub data Reading : Type 0 where
  returned : List ℕ → Reading
  killed_read : Reading
  sleeping : List ℕ → ℕ → Reading

abbrev pub read_more : ℕ → Reading → Reading
read_more c (returned l) = returned (c ∷ l)
read_more c killed_read = killed_read
read_more c (sleeping l n) = sleeping (c ∷ l) n

-- The loop of consoleread() for the `n` bytes that are left.
unfoldable pub read_loop : Bool → ℕ → ℕ → Cmd Console Reading
read_loop killed target zero = pure (returned [])
read_loop killed target (suc n) =
    let rest = read_loop killed target n in
    do
      s ← get
      if s.r == s.w then pure (if killed then killed_read else sleeping [] (suc n)) else (do
        modify (λ t. record t { r = u32 (t.r + 1) })
        let c = s.buf (s.r % input_buf)
        if c == ctrl_d
            then (do
              when (ltb (suc n) target) (modify (λ t. record t { r = u32 (t.r + 2 ^ 32 - 1) }))
              pure (returned []))
            else (if c == b'\n'
                then pure (returned (c ∷ []))
                else (do more ← rest; pure (read_more c more))))

-- A read of `target` bytes of which `n` are left; when it sleeps it gives up the lock as well.
unfoldable pub read_on : Bool → ℕ → ℕ → Cmd Console Reading
read_on killed target n = do acquire; got ← read_loop killed target n; release; pure got

unfoldable pub consoleread : Bool → ℕ → Cmd Console Reading
consoleread killed n = read_on killed n n

-- The loop of consolewrite().
unfoldable pub put_all : List ℕ → Cmd Console (Unit {0})
put_all [] = pure tt
put_all (c ∷ cs) = do consputc (c % 256); put_all cs

unfoldable pub consolewrite : List ℕ → Cmd Console (Unit {0})
consolewrite src = do acquire; put_all src; release
