-- ===== src/Console/Typing.antt =====
-- A character that is typed at the console of xv6-public/console.c.
use os_11740_assignment.Base.{
  ℕ, ◌+◌, ◌-◌, ◌%◌, ◌^◌, ◌<◌, ◌≡◌, refl, ap, subst, ◌∙◌, arith, false, Bool-cases, inl, inr, ◌&&◌,
  ◌||◌, ◌==◌, ◌!=◌, ltb, List, [], ◌∷◌, ◌++◌, length, length-append, if◌then◌else◌, update,
  update_self,
}
use os_11740_assignment.Base.Run.{Cmd, ok, and_then, get, modify, when, ◌>>=◌, ◌>>◌}
use os_11740_assignment.Mmu.{u32}
use os_11740_assignment.Console.{
  Console, input_buf, ctrl_d, newline, consputc, finish_line, type_char,
}
use os_11740_assignment.Console.Screen.{IsRunning, shown, consputc-shown, shown-IsRunning, rev_onto}
use os_11740_assignment.Console.Stored.{
  Stored, Back, Stored-append, Stored-rev_onto, Stored-update, Back-update, length-rev_onto,
}
use os_11740_assignment.Console.Keys.{Typed, finishes, add_char, Holds, After}

abbrev with_char : ℕ → Console → Console
with_char n s =
    shown n (record s { buf = update s.buf (s.e % input_buf) (n % 256); e = u32 (s.e + 1) })

-- After the character is stored and shown.
abbrev check_full : ℕ → Cmd Console (Unit {0})
check_full n = do
  t ← get
  when ((n == b'\n') || ((n == ctrl_d) || (t.e == u32 (t.r + input_buf)))) finish_line

module _ (n : ℕ) (l : Typed) (s : Console) (h : Holds l s) (byte : n < 256)
    (free : length l.lines + length l.edit < input_buf) where
  with_char-IsRunning : IsRunning (with_char n s)
  with_char-IsRunning =
      shown-IsRunning n _ (record { going = h.running.going; on_screen = h.running.on_screen })

  index_at : (s.r + (length l.lines + length l.edit)) % input_buf ≡ s.e % input_buf
  index_at = omega (arith, h.e_at)

  lines_kept : Stored (with_char n s).buf s.r l.lines
  lines_kept =
      subst (λ i. Stored (update s.buf i (n % 256)) s.r l.lines) index_at
        (Stored-update s.buf (s.r + (length l.lines + length l.edit)) (n % 256) s.r l.lines
          (omega arith) (omega (arith, free)) h.lines_stored)

  edit_kept : Back (with_char n s).buf (s.r + length l.lines) l.edit
  edit_kept =
      subst (λ i. Back (update s.buf i (n % 256)) (s.r + length l.lines) l.edit) index_at
        (Back-update s.buf (s.r + (length l.lines + length l.edit)) (n % 256) (s.r + length l.lines)
          l.edit (omega arith) (omega (arith, free)) h.edit_stored)

  char_stored : (with_char n s).buf ((s.r + length l.lines + length l.edit) % input_buf) ≡ n
  char_stored =
      ap (update s.buf (s.e % input_buf) (n % 256)) (omega (arith, index_at))
      ∙ (update_self s.buf (s.e % input_buf) (n % 256) ∙ omega (arith, byte))

  added-Holds :
      (n == b'\n') ≡ false → Holds (record { lines = l.lines; edit = n ∷ l.edit }) (with_char n s)
  added-Holds other = record {
    running = with_char-IsRunning;
    room = omega (arith, free);
    r_word = h.r_word;
    w_at = h.w_at;
    e_at = omega (arith, h.e_at);
    lines_stored = lines_kept;
    edit_stored = (char_stored, edit_kept);
    plain = (other, h.plain);
  }

  abbrev finished : List ℕ
  finished = l.lines ++ rev_onto (n ∷ l.edit) []

  length-finished : length finished ≡ length l.lines + (length l.edit + 1)
  length-finished =
      omega
        (arith, length-append l.lines (rev_onto (n ∷ l.edit) []), length-rev_onto (n ∷ l.edit) [])

  abbrev committed : Console → Console
  committed t = record t { w = t.e; wakeups = t.wakeups + 1 }

  committed-Holds : Holds (record { lines = finished; edit = [] }) (committed (with_char n s))
  committed-Holds = record {
    running = record {
      going = with_char-IsRunning.going;
      on_screen = with_char-IsRunning.on_screen;
    };
    room = omega (arith, free, length-finished);
    r_word = h.r_word;
    w_at = omega (arith, h.e_at, length-finished);
    e_at = omega (arith, h.e_at, length-finished);
    lines_stored =
        Stored-append (with_char n s).buf s.r l.lines (rev_onto (n ∷ l.edit) []) lines_kept (
          Stored-rev_onto (with_char n s).buf (s.r + length l.lines) (n ∷ l.edit) []
            (char_stored, edit_kept) tt);
    edit_stored = tt;
    plain = tt;
  }

  full_test :
      ((n == b'\n') || ((n == ctrl_d) || ((with_char n s).e == u32 (s.r + input_buf))))
      ≡ finishes n l.lines (n ∷ l.edit)
  full_test =
      ap (λ b. (n == b'\n') || ((n == ctrl_d) || b)) (ground (arith, h.e_at, free, h.r_word))

  check_full-After :
      (t : Console) × (check_full n (with_char n s) ≡ ok tt t) × After l (add_char n l) s t
  unfolding finish_line
  check_full-After = elim (Bool-cases (finishes n l.lines (n ∷ l.edit))) [
    | inl e ↦ (
      committed (with_char n s),
      ap (λ b. when b finish_line (with_char n s)) (full_test ∙ e),
      rw e (committed-Holds, refl, ground (arith, length-finished)),
    )
    | inr e ↦ (
      with_char n s,
      ap (λ b. when b finish_line (with_char n s)) (full_test ∙ e),
      rw e (added-Holds (ground (arith, e)), refl, ground arith),
    )
  ]

abbrev store_char : ℕ → Cmd Console (Unit {0})
store_char c = do
  modify
      (λ t. record t { buf = update t.buf (t.e % input_buf) (newline c % 256); e = u32 (t.e + 1) })
  consputc (newline c)
  t ← get
  when ((newline c == b'\n') || ((newline c == ctrl_d) || (t.e == u32 (t.r + input_buf))))
      finish_line

room_test :
    (l : Typed) (s : Console)
    → Holds l s
    → ltb (u32 (s.e + 2 ^ 32 - s.r)) input_buf ≡ ltb (length l.lines + length l.edit) input_buf
room_test l s h = ground (arith, h.e_at, h.room, h.r_word)

abbrev pub typed : ℕ → Typed → Typed
typed c l =
    if (c != 0) && ltb (length l.lines + length l.edit) input_buf then add_char (newline c) l else l

pub type_char-After :
    (c : ℕ) (l : Typed) (s : Console)
    → c < 256
    → Holds l s
    → (t : Console) × (type_char c s ≡ ok tt t) × After l (typed c l) s t
unfolding type_char
type_char-After c l s byte h =
    elim (Bool-cases ((c != 0) && ltb (length l.lines + length l.edit) input_buf)) [
      | inl e ↦
          let (t, run, after) =
            check_full-After (newline c) l s h (ground arith) (ground (arith, e)) in
          (
            t,
            ap (λ b. when ((c != 0) && b) (store_char c) s) (room_test l s h)
                ∙ (ap (λ b. when b (store_char c) s) e
                    ∙ (ap (λ r. and_then r (λ _. check_full (newline c)))
                          (consputc-shown (newline c) _
                            (record { going = h.running.going; on_screen = h.running.on_screen }))
                        ∙ run)),
            rw e after,
          )
      | inr e ↦ (
        s,
        ap (λ b. when ((c != 0) && b) (store_char c) s) (room_test l s h)
            ∙ ap (λ b. when b (store_char c) s) e,
        rw e (h, refl, ground arith),
      )
    ]
