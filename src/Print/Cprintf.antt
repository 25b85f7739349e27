-- ===== src/Print/Cprintf.antt =====
-- cprintf() of xv6-public/console.c puts the characters on the console.
use os_11740_assignment.Base.{
  ℕ, ◌<◌, ◌^◌, ◌≡◌, ap, ◌∙◌, Bool, true, false, Option, none, some, List,
}
use os_11740_assignment.Base.Run.{Cmd, ok, panics, faults, when, ◌>>◌}
use os_11740_assignment.Console.{Console, acquire, release, put_all, consolewrite}
use os_11740_assignment.Console.Screen.{IsRunning, Writes, consolewrite-Writes}
use os_11740_assignment.Print.{kernel_loop}
use os_11740_assignment.Print.Prints.{Prints, kernel_loop-Prints}

abbrev print_out : Option (List ℕ) → Cmd Console (Unit {0})
print_out none = faults
print_out (some cs) = put_all cs

-- `locking` is cons.locking; no format is the null pointer. A character is cut to 8 bits.
unfoldable pub cprintf : (ℕ → ℕ) → (ℕ → List ℕ) → Bool → Option (List ℕ) → Cmd Console (Unit {0})
cprintf arg str locking none = do when locking acquire; panics
cprintf arg str locking (some fmt) = do
  when locking acquire
  print_out (kernel_loop arg str fmt 0)
  when locking release

-- cprintf() under its lock returns, and has sent to the serial port just what the format stands for with
-- its arguments: each %d as the numeral in base 10, with a - in front where the int is negative, each %x and
-- %p as the one in base 16, each %s as its string, or as (null), and %% as %. It writes past the end of
-- no buffer. The conditions are that the arguments are 32-bit words, that the kernel has not panicked and
-- the cursor is on the screen, and that this processor does not hold the lock.
pub cprintf-Writes :
    (arg : ℕ → ℕ) (str : ℕ → List ℕ) (fmt : List ℕ) (s : Console)
    → ((i : ℕ) → arg i < 2 ^ 32)
    → IsRunning s
    → s.locked ≡ false
    → (cs : List ℕ) × Prints arg str fmt 0 cs
      × (t : Console) × (cprintf arg str true (some fmt) s ≡ ok tt t)
      × Writes cs s t
unfolding cprintf consolewrite
cprintf-Writes arg str fmt s words h free =
    let (cs, run, prints) = kernel_loop-Prints arg str words fmt 0 in
    let (t, sent, writes) = consolewrite-Writes cs s h free in
    (cs, prints, t, ap (λ out. (do acquire; print_out out; release) s) run ∙ sent, writes)
