-- ===== src/Console/Keys.antt =====
-- What the keys do to the input line, and consoleintr() of xv6-public/console.c as its implementation in
-- a ring of 128 characters with indices that wrap around at 2^32.
use os_11740_assignment.Base.{
  ℕ, zero, suc, ◌+◌, ◌-◌, ◌%◌, ◌^◌, ◌≤◌, ◌<◌, ◌≡◌, refl, ap, ap₂, ◌∙◌, arith, Bool, true, false,
  ◌&&◌, ◌||◌, ◌==◌, ◌!=◌, ltb, List, [], ◌∷◌, ◌++◌, length, All, if◌then◌else◌,
}
use os_11740_assignment.Base.Run.{ok, and_then, when, ◌>>◌}
use os_11740_assignment.Mmu.{u32}
use os_11740_assignment.Console.{
  Console, input_buf, backspace, ctrl_d, ctrl_h, ctrl_p, ctrl_u, rubout, newline, erase, kill_line,
}
use os_11740_assignment.Console.Screen.{IsRunning, shown, consputc-shown, shown-IsRunning, rev_onto}
use os_11740_assignment.Console.Stored.{Stored, Back}

-- The characters that wait for a reader, and those of the line that is typed, the last one first.
pub record Typed : Type 0 where
  pub lines : List ℕ
  pub edit : List ℕ

-- Whether a character finishes the line `edit`, which it is the last one of.
abbrev pub finishes : ℕ → List ℕ → List ℕ → Bool
finishes c lines edit = (c == b'\n') || ((c == ctrl_d) || (length lines + length edit == input_buf))

abbrev pub add_char : ℕ → Typed → Typed
add_char c l =
    if finishes c l.lines (c ∷ l.edit)
    then record { lines = l.lines ++ rev_onto (c ∷ l.edit) []; edit = [] }
    else record { lines = l.lines; edit = c ∷ l.edit }

abbrev pub drop_last : Typed → List ℕ → Typed
drop_last l [] = l
drop_last l (c ∷ cs) = record { lines = l.lines; edit = cs }

-- The effect of a key.
unfoldable pub press : ℕ → Typed → Typed
press c l =
    if c == ctrl_p
    then l
    else (if c == ctrl_u
        then record { lines = l.lines; edit = [] }
        else (if (c == ctrl_h) || (c == rubout)
            then drop_last l l.edit
            else (if (c != 0) && ltb (length l.lines + length l.edit) input_buf
                then add_char (newline c) l
                else l)))

-- The ring holds the characters.
pub record Holds (l : Typed) (s : Console) : Type 0 where
  pub running : IsRunning s
  pub room : length l.lines + length l.edit ≤ input_buf
  pub r_word : s.r < 2 ^ 32
  pub w_at : s.w ≡ u32 (s.r + length l.lines)
  pub e_at : s.e ≡ u32 (s.r + (length l.lines + length l.edit))
  pub lines_stored : Stored s.buf s.r l.lines
  pub edit_stored : Back s.buf (s.r + length l.lines) l.edit
  pub plain : All (λ c. (c == b'\n') ≡ false) l.edit

abbrev pub one_less : Console → Console
one_less s = shown backspace (record s { e = u32 (s.e + 2 ^ 32 - 1) })

pub erase-Holds :
    (c : ℕ) (lines cs : List ℕ) (s : Console)
    → Holds (record { lines = lines; edit = c ∷ cs }) s
    → (erase s ≡ ok tt (one_less s)) × Holds (record { lines = lines; edit = cs }) (one_less s)
unfolding erase
erase-Holds c lines cs s h = (
  consputc-shown backspace (record s { e = u32 (s.e + 2 ^ 32 - 1) })
      (record { going = h.running.going; on_screen = h.running.on_screen }),
  record {
    running =
        shown-IsRunning backspace _
          (record { going = h.running.going; on_screen = h.running.on_screen });
    room = omega (arith, h.room);
    r_word = h.r_word;
    w_at = h.w_at;
    e_at = omega (arith, h.e_at, h.room, h.r_word);
    lines_stored = h.lines_stored;
    edit_stored = h.edit_stored.1;
    plain = h.plain.1;
  },
)

pub at_end : (l : Typed) (s : Console) → Holds l s → length l.edit ≡ 0 → (s.e != s.w) ≡ false
at_end l s h none_left = ground (arith, h.e_at, h.w_at, none_left)

pub before_end : (l : Typed) (s : Console) → Holds l s → 0 < length l.edit → (s.e != s.w) ≡ true
before_end l s h left = ground (arith, h.e_at, h.w_at, h.room, left, h.r_word)

last_index :
    (c : ℕ) (lines cs : List ℕ) (s : Console)
    → Holds (record { lines = lines; edit = c ∷ cs }) s
    → u32 (s.e + 2 ^ 32 - 1) % input_buf ≡ (s.r + length lines + length cs) % input_buf
last_index c lines cs s h = omega (arith, h.e_at, h.room, h.r_word)

last_plain :
    (c : ℕ) (lines cs : List ℕ) (s : Console)
    → Holds (record { lines = lines; edit = c ∷ cs }) s
    → (s.buf (u32 (s.e + 2 ^ 32 - 1) % input_buf) != b'\n') ≡ true
last_plain c lines cs s h =
    ap (λ x. x != b'\n') (ap s.buf (last_index c lines cs s h) ∙ h.edit_stored.0)
    ∙ (let q = h.plain.0 in ground arith)

-- After the loop the line is empty, and all else is as before.
abbrev pub Killed : List ℕ → Console → Console → Type 0
Killed lines s t =
    Holds (record { lines = lines; edit = [] }) t × (t.locked ≡ s.locked) × (t.wakeups ≡ s.wakeups)

pub kill_line-Killed :
    (k : ℕ) (lines edit : List ℕ) (s : Console)
    → length edit < k
    → Holds (record { lines = lines; edit = edit }) s
    → (t : Console) × (kill_line k s ≡ ok tt t) × Killed lines s t
unfolding kill_line
kill_line-Killed zero lines edit s lt h = absurd (omega arith)
kill_line-Killed (suc k) lines [] s lt h = (
  s,
  ap
      (λ b.
        when (b && (s.buf (u32 (s.e + 2 ^ 32 - 1) % input_buf) != b'\n')) (do erase; kill_line k) s)
      (at_end (record { lines = lines; edit = [] }) s h refl),
  (h, refl, refl),
)
kill_line-Killed (suc k) lines (c ∷ cs) s lt h =
    let (erased, g) = erase-Holds c lines cs s h in
    let (t, run, (holds, lock, woken)) = kill_line-Killed k lines cs (one_less s) (omega arith) g in
    (
      t,
      ap₂ (λ a b. when (a && b) (do erase; kill_line k) s)
            (before_end (record { lines = lines; edit = c ∷ cs }) s h (omega arith))
            (last_plain c lines cs s h)
          ∙ (ap (λ r. and_then r (λ _. kill_line k)) erased ∙ run),
      (holds, lock, woken),
    )

-- One call of wakeup(&input.r), when there is more to read.
abbrev pub grown : Typed → Typed → ℕ
grown l m = if length l.lines == length m.lines then 0 else 1

-- The ring of `t` holds `m`, and the readers were woken if `l` had less for them to read.
abbrev pub After : Typed → Typed → Console → Console → Type 0
After l m s t = Holds m t × (t.locked ≡ s.locked) × (t.wakeups ≡ s.wakeups + grown l m)
