-- ===== src/Console/Tests.antt =====
-- A console that waits for input.
use os_11740_assignment.Base.{
  ℕ, ◌≡◌, refl, arith, true, false, ◌==◌, if◌then◌else◌, List, [], ◌∷◌, ◌++◌,
}
use os_11740_assignment.Base.Run.{ok, ◌>>◌}
use os_11740_assignment.Console.{
  Console, uartputc, cgaputc, consputc, erase, kill_line, finish_line, type_char, key, intr_loop,
  consoleintr, returned, sleeping, read_loop, read_on, consoleread, ctrl_h, ctrl_u,
}
use os_11740_assignment.Console.Screen.{IsRunning}
use os_11740_assignment.Console.Keys.{Typed, Holds}
use os_11740_assignment.Console.Intr.{press_all, lists, consoleintr-press_all}
use os_11740_assignment.Console.Lines.{take_line, consoleread-take_line}
use os_11740_assignment.Console.RoundTrip.{consoleread-consoleintr}

-- The indices are about to wrap around, and the cursor is at the end of the last row.
abbrev pub idle : Console
idle = record {
  buf = λ i. 0;
  r = 4294967295;
  w = 4294967295;
  e = 4294967295;
  crt = λ x. 0;
  cursor = 1919;
  uart = true;
  serial = [];
  wakeups = 0;
  panicked = false;
  locked = false;
}

pub idle-IsRunning : IsRunning idle
idle-IsRunning = record { going = refl; on_screen = omega arith }

abbrev nothing : Typed
nothing = record { lines = []; edit = [] }

idle-Holds : Holds nothing idle
idle-Holds = record {
  running = idle-IsRunning;
  room = omega arith;
  r_word = omega arith;
  w_at = refl;
  e_at = refl;
  lines_stored = tt;
  edit_stored = tt;
  plain = tt;
}

abbrev word : List ℕ
word = b'l' ∷ b's' ∷ []

-- A key is taken back, and the line is read.
abbrev keys : List ℕ
keys = b'l' ∷ b'x' ∷ ctrl_h ∷ b's' ∷ b'\r' ∷ []

edited :
    (t : Console) × ((do consoleintr keys; consoleread false 10) idle
      ≡ ok (returned (b'l' ∷ b's' ∷ b'\n' ∷ [])) t)
unfolding consoleintr intr_loop key type_char consputc uartputc cgaputc erase finish_line
    consoleread read_on read_loop
edited = (_, refl)

-- A killed line leaves nothing, so that a reader sleeps.
killed_line :
    (t : Console) × ((do consoleintr (b'l' ∷ b'x' ∷ ctrl_u ∷ []); consoleread false 10) idle
      ≡ ok (sleeping [] 10) t)
unfolding consoleintr intr_loop key type_char consputc uartputc cgaputc erase kill_line finish_line
    consoleread read_on read_loop
killed_line = (_, refl)

consoleintr-press_all_example :
    (t : Console) × (consoleintr keys idle ≡ ok (lists keys false) t)
    × Holds (press_all keys nothing) t
    × (t.locked ≡ false)
consoleintr-press_all_example =
    consoleintr-press_all keys nothing idle
      (omega arith, (omega arith, (omega arith, (omega arith, (omega arith, tt))))) idle-Holds refl

-- The line "ls" waits, from the last place of the ring on.
abbrev waiting : Typed
waiting = record { lines = b'l' ∷ b's' ∷ b'\n' ∷ []; edit = [] }

abbrev with_line : Console
with_line = record idle {
  buf = λ i. if i == 127 then b'l' else (if i == 0 then b's' else b'\n');
  r = 127;
  w = 130;
  e = 130;
}

with_line-Holds : Holds waiting with_line
with_line-Holds = record {
  running = record { going = refl; on_screen = omega arith };
  room = omega arith;
  r_word = omega arith;
  w_at = refl;
  e_at = refl;
  lines_stored = (refl, (refl, (refl, tt)));
  edit_stored = tt;
  plain = tt;
}

consoleread-take_line_example :
    (t : Console) × (consoleread false 10 with_line ≡ ok (take_line false 10 10 waiting.lines).0 t)
    × Holds (record { lines = (take_line false 10 10 waiting.lines).1; edit = [] }) t
    × (t.locked ≡ false)
consoleread-take_line_example =
    consoleread-take_line false 10 waiting with_line with_line-Holds refl

consoleread-consoleintr_example :
    (t : Console) × ((do consoleintr (word ++ (b'\r' ∷ [])); consoleread false 10) idle
      ≡ ok (returned (word ++ (b'\n' ∷ []))) t)
    × Holds nothing t
consoleread-consoleintr_example =
    consoleread-consoleintr false 10 word idle
      ((omega arith, omega arith), ((omega arith, omega arith), tt)) (omega arith) (omega arith)
      idle-Holds refl
