-- ===== src/Console/Screen.antt =====
-- What consputc() of xv6-public/console.c does to the screen and the serial port.
use os_11740_assignment.Base.{
  ℕ, ◌-◌, ◌*◌, ◌%◌, ◌≤◌, ◌<◌, ◌≡◌, refl, sym, ap, ◌∙◌, arith, Bool, true, false, ◌==◌, ltb, List,
  [], ◌∷◌, ◌++◌, map, if◌then◌else◌, update,
}
use os_11740_assignment.Base.Run.{Run, Cmd, ok, and_then, spins, panic, ◌>>◌}
use os_11740_assignment.Console.{
  Console, release, backspace, cell, uartputc, put_char, move_cursor, scroll, cgaputc, consputc,
  put_all, consolewrite,
}

-- The kernel has not panicked, and the cursor is in the 24 rows that are used.
pub record IsRunning (s : Console) : Type 0 where
  pub going : s.panicked ≡ false
  pub on_screen : s.cursor < 24 * 80

-- The cells and the cursor after cgaputc().
abbrev pub cells_after : ℕ → ℕ → (ℕ → ℕ) → ℕ → ℕ
cells_after c pos crt =
    let next = move_cursor c pos in
    if ltb next (24 * 80)
    then update (put_char c pos crt) next (cell b' ')
    else update (scroll (next - 80) (put_char c pos crt)) (next - 80) (cell b' ')

abbrev pub cursor_after : ℕ → ℕ → ℕ
cursor_after c pos = let next = move_cursor c pos in if ltb next (24 * 80) then next else next - 80

-- The bytes that consputc() sends, the last one first.
abbrev pub sent : ℕ → List ℕ
sent c = if c == backspace then 8 ∷ b' ' ∷ 8 ∷ [] else c % 256 ∷ []

abbrev pub shown : ℕ → Console → Console
shown c s = record s {
  crt = cells_after c s.cursor s.crt;
  cursor = cursor_after c s.cursor;
  serial = if s.uart then sent c ++ s.serial else s.serial;
}

cgaputc-shown :
    (c : ℕ) (s : Console)
    → s.cursor < 24 * 80
    → cgaputc c s
      ≡ ok tt (record s { crt = cells_after c s.cursor s.crt; cursor = cursor_after c s.cursor })
unfolding cgaputc
cgaputc-shown c s lt = ground arith

abbrev send : ℕ → Cmd Console (Unit {0})
send c = if c == backspace then (do uartputc 8; uartputc b' '; uartputc 8) else uartputc c

send-sent :
    (c : ℕ) (s : Console)
    → send c s ≡ ok tt (record s { serial = if s.uart then sent c ++ s.serial else s.serial })
unfolding uartputc
send-sent c s = ground arith

-- consputc() does not panic while the cursor is on the screen: it sends its bytes, and shows the
-- character.
pub consputc-shown : (c : ℕ) (s : Console) → IsRunning s → consputc c s ≡ ok tt (shown c s)
unfolding consputc uartputc
consputc-shown c s h =
    not_panicked
    ∙ (ap (λ m. and_then m (λ _. cgaputc c)) (send-sent c s)
        ∙ cgaputc-shown c (record s { serial = if s.uart then sent c ++ s.serial else s.serial })
            h.on_screen)
  where
    not_panicked : consputc c s ≡ (send c >> cgaputc c) s
    not_panicked = ap (λ b. (if b then spins else (send c >> cgaputc c)) s) h.going

pub shown-IsRunning : (c : ℕ) (s : Console) → IsRunning s → IsRunning (shown c s)
shown-IsRunning c s h = record {
  going = h.going;
  on_screen = (let q = h.on_screen in ground arith);
}

-- The cells below the rows that are used stay as they are.
pub cells_after_below :
    (c pos x : ℕ) (crt : ℕ → ℕ) → pos < 24 * 80 → 24 * 80 ≤ x → cells_after c pos crt x ≡ crt x
cells_after_below c pos x crt lt le = ground arith

-- A list from the last element to the first, put before another.
abbrev pub rev_onto : List ℕ → List ℕ → List ℕ
rev_onto [] ys = ys
rev_onto (x ∷ xs) ys = rev_onto xs (x ∷ ys)

-- The input line of `t` is that of `s`, and so are the cells below the screen.
pub record SameInput (s t : Console) : Type 0 where
  pub same_buf : t.buf ≡ s.buf
  pub same_r : t.r ≡ s.r
  pub same_w : t.w ≡ s.w
  pub same_e : t.e ≡ s.e
  pub same_wakeups : t.wakeups ≡ s.wakeups
  pub same_uart : t.uart ≡ s.uart
  pub same_lock : t.locked ≡ s.locked
  pub same_below : (x : ℕ) → 24 * 80 ≤ x → t.crt x ≡ s.crt x

SameInput-refl : (s : Console) → SameInput s s
SameInput-refl s = record {
  same_buf = refl;
  same_r = refl;
  same_w = refl;
  same_e = refl;
  same_wakeups = refl;
  same_uart = refl;
  same_lock = refl;
  same_below = λ x le. refl;
}

SameInput-shown : (c : ℕ) (s t : Console) → IsRunning s → SameInput (shown c s) t → SameInput s t
SameInput-shown c s t h g = record {
  same_buf = g.same_buf;
  same_r = g.same_r;
  same_w = g.same_w;
  same_e = g.same_e;
  same_wakeups = g.same_wakeups;
  same_uart = g.same_uart;
  same_lock = g.same_lock;
  same_below = λ x le. g.same_below x le ∙ cells_after_below c s.cursor x s.crt h.on_screen le;
}

-- The state after a write of `src`.
abbrev pub Writes : List ℕ → Console → Console → Type 0
Writes src s t =
    IsRunning t
    × SameInput s t
    × (s.uart ≡ true → t.serial ≡ rev_onto (map (λ c. c % 256) src) s.serial)

serial-shown :
    (c : ℕ) (s : Console) → s.uart ≡ true → (shown (c % 256) s).serial ≡ c % 256 ∷ s.serial
serial-shown c s u = ground arith

put_all-Writes :
    (src : List ℕ) (s : Console)
    → IsRunning s
    → (t : Console) × (put_all src s ≡ ok tt t) × Writes src s t
unfolding put_all
put_all-Writes [] s h = (s, refl, (h, SameInput-refl s, λ u. refl))
put_all-Writes (c ∷ cs) s h =
    let (t, run, (g, same, serial)) =
      put_all-Writes cs (shown (c % 256) s) (shown-IsRunning (c % 256) s h) in
    (
      t,
      ap (λ r. and_then r (λ _. put_all cs)) (consputc-shown (c % 256) s h) ∙ run,
      (
        g,
        SameInput-shown (c % 256) s t h same,
        λ u. serial u ∙ ap (rev_onto (map (λ c. c % 256) cs)) (serial-shown c s u),
      ),
    )

-- acquire() and release() after the test of the lock.
abbrev pub acquire_if : Bool → Console → Cmd Console (Unit {0})
acquire_if b s _ = if b then panic else ok tt (record s { locked = true })

abbrev pub release_if : Bool → Console → Run Console (Unit {0})
release_if b t = if b then ok tt (record t { locked = false }) else panic

-- A write on a console that is not locked returns, and sends the bytes of the buffer in their order, each
-- of them cut to 8 bits; the input line stays as it is, and so do the cells of the screen below the rows
-- that are used.
pub consolewrite-Writes :
    (src : List ℕ) (s : Console)
    → IsRunning s
    → s.locked ≡ false
    → (t : Console) × (consolewrite src s ≡ ok tt t) × Writes src s t
unfolding consolewrite
consolewrite-Writes src s h free =
    let locked = record s { locked = true } in
    let (t, run, (g, same, serial)) =
      put_all-Writes src locked (record { going = h.going; on_screen = h.on_screen }) in
    (
      record t { locked = false },
      ap (λ b. (acquire_if b s >> (put_all src >> release)) s) free
          ∙ (ap (λ r. and_then r (λ _. release)) run ∙ ap (λ b. release_if b t) same.same_lock),
      (
        record { going = g.going; on_screen = g.on_screen },
        record {
          same_buf = same.same_buf;
          same_r = same.same_r;
          same_w = same.same_w;
          same_e = same.same_e;
          same_wakeups = same.same_wakeups;
          same_uart = same.same_uart;
          same_lock = sym free;
          same_below = same.same_below;
        },
        serial,
      ),
    )
