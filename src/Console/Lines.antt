-- ===== src/Console/Lines.antt =====
-- consoleread() of xv6-public/console.c takes a line out of the ring, and gives back what was typed.
use os_11740_assignment.Base.{
  ℕ, zero, suc, ◌+◌, ◌-◌, ◌%◌, ◌^◌, ◌≡◌, refl, ap, subst, ◌∙◌, arith, Bool, true, false, Bool-cases,
  inl, inr, ◌==◌, ltb, List, [], ◌∷◌, length, if◌then◌else◌,
}
use os_11740_assignment.Base.Run.{Cmd, ok, pure, and_then, modify, when, ◌>>=◌, ◌>>◌}
use os_11740_assignment.Mmu.{u32}
use os_11740_assignment.Console.{
  Console, release, input_buf, ctrl_d, Reading, returned, killed_read, sleeping, read_more,
  read_loop, read_on, consoleread,
}
use os_11740_assignment.Console.Screen.{acquire_if, release_if}
use os_11740_assignment.Console.Stored.{Stored-shift, Back-shift}
use os_11740_assignment.Console.Keys.{Typed, Holds}
use os_11740_assignment.Console.Intr.{Holds-lock}

-- What a read of `target` bytes of which `n` are left gets from the characters, and those that stay.
unfoldable pub take_line : Bool → ℕ → ℕ → List ℕ → Reading × List ℕ
take_line killed target zero cs = (returned [], cs)
take_line killed target (suc n) [] = ((if killed then killed_read else sleeping [] (suc n)), [])
take_line killed target (suc n) (c ∷ cs) =
    let rest = take_line killed target n cs in
    if c == ctrl_d
    then (returned [], (if ltb (suc n) target then c ∷ cs else cs))
    else (if c == b'\n' then (returned (c ∷ []), cs) else (read_more c rest.0, rest.1))

abbrev next : Console → Console
next s = record s { r = u32 (s.r + 1) }

next-Holds :
    (c : ℕ) (cs edit : List ℕ) (s : Console)
    → Holds (record { lines = c ∷ cs; edit = edit }) s
    → Holds (record { lines = cs; edit = edit }) (next s)
next-Holds c cs edit s h = record {
  running = record { going = h.running.going; on_screen = h.running.on_screen };
  room = omega (arith, h.room);
  r_word = omega arith;
  w_at = omega (arith, h.w_at);
  e_at = omega (arith, h.e_at);
  lines_stored = Stored-shift s.buf (s.r + 1) (u32 (s.r + 1)) cs (omega arith) h.lines_stored.1;
  edit_stored =
      Back-shift s.buf (s.r + suc (length cs)) (u32 (s.r + 1) + length cs) edit (omega arith)
        h.edit_stored;
  plain = h.plain;
}

-- input.r--, after input.r++
back-Holds :
    (l : Typed) (s : Console)
    → Holds l s
    → Holds l (record s { r = u32 (u32 (s.r + 1) + 2 ^ 32 - 1) })
back-Holds l s h = subst (λ x. Holds l (record s { r = x })) back h
  where
    back : s.r ≡ u32 (u32 (s.r + 1) + 2 ^ 32 - 1)
    back = omega (arith, h.r_word)

nothing_left :
    (edit : List ℕ) (s : Console)
    → Holds (record { lines = []; edit = edit }) s
    → (s.r == s.w) ≡ true
nothing_left edit s h = ground (arith, h.w_at, h.r_word)

something_left :
    (c : ℕ) (cs edit : List ℕ) (s : Console)
    → Holds (record { lines = c ∷ cs; edit = edit }) s
    → (s.r == s.w) ≡ false
something_left c cs edit s h = ground (arith, h.w_at, h.r_word, h.room)

abbrev Reads : Bool → ℕ → ℕ → Typed → Console → Type 0
Reads killed target n l s =
    (t : Console) × (read_loop killed target n s ≡ ok (take_line killed target n l.lines).0 t)
    × Holds (record { lines = (take_line killed target n l.lines).1; edit = l.edit }) t
    × (t.locked ≡ s.locked)

-- What a round does with the character `c`.
abbrev take_char : Bool → ℕ → ℕ → ℕ → Cmd Console Reading
take_char killed target n c = do
  modify (λ t. record t { r = u32 (t.r + 1) })
  if c == ctrl_d
      then (do
        when (ltb (suc n) target) (modify (λ t. record t { r = u32 (t.r + 2 ^ 32 - 1) }))
        pure (returned []))
      else (if c == b'\n'
          then pure (returned (c ∷ []))
          else (do more ← read_loop killed target n; pure (read_more c more)))

abbrev round : Bool → ℕ → ℕ → Bool → Cmd Console Reading
round killed target n is_empty s =
    (if is_empty
        then pure (if killed then killed_read else sleeping [] (suc n))
        else take_char killed target n (s.buf (s.r % input_buf)))
      s

read_loop-Reads :
    (killed : Bool) (target n : ℕ) (cs edit : List ℕ) (s : Console)
    → Holds (record { lines = cs; edit = edit }) s
    → Reads killed target n (record { lines = cs; edit = edit }) s
unfolding read_loop take_line
read_loop-Reads killed target zero cs edit s h = (s, refl, h, refl)
read_loop-Reads killed target (suc n) [] edit s h = (s, rw (nothing_left edit s h) refl, h, refl)
read_loop-Reads killed target (suc n) (c ∷ cs) edit s h =
    let first =
      ap (λ b. round killed target n b s) (something_left c cs edit s h)
      ∙ ap (λ x. take_char killed target n x s) h.lines_stored.0 in
    let got = next-Holds c cs edit s h in
    let (t, run, holds, lock) = read_loop-Reads killed target n cs edit (next s) got in
    elim (Bool-cases (c == ctrl_d)) [
      | inl e ↦ elim (Bool-cases (ltb (suc n) target)) [
        | inl m ↦ (
          record s { r = u32 (u32 (s.r + 1) + 2 ^ 32 - 1) },
          first ∙ rw (e, m) refl,
          rw (e, m) (back-Holds _ s h),
          refl,
        )
        | inr m ↦ (next s, first ∙ rw (e, m) refl, rw (e, m) got, refl)
      ]
      | inr e ↦ elim (Bool-cases (c == b'\n')) [
        | inl m ↦ (next s, first ∙ rw (e, m) refl, rw (e, m) got, refl)
        | inr m ↦ (
          t,
          first ∙ rw (e, m) (ap (λ r. and_then r (λ more. pure (read_more c more))) run),
          rw (e, m) holds,
          lock,
        )
      ]
    ]

-- A read of `n` bytes takes from the ring what a read takes from the characters, up to a newline, an end
-- of file or the `n` bytes, and leaves the line that is typed alone. It returns, finds the process
-- killed, or sleeps when no character is left; it has given up the lock then. The conditions are that the
-- ring holds the characters, and that this processor does not hold the lock.
pub consoleread-take_line :
    (killed : Bool) (n : ℕ) (l : Typed) (s : Console)
    → Holds l s
    → s.locked ≡ false
    → (t : Console) × (consoleread killed n s ≡ ok (take_line killed n n l.lines).0 t)
      × Holds (record { lines = (take_line killed n n l.lines).1; edit = l.edit }) t
      × (t.locked ≡ false)
unfolding consoleread read_on
consoleread-take_line killed n l s h free =
    let (t, run, holds, lock) =
      read_loop-Reads killed n n l.lines l.edit (record s { locked = true })
        (Holds-lock true l s h) in
    (
      record t { locked = false },
      ap (λ b. (acquire_if b s >> (do got ← read_loop killed n n; release; pure got)) s) free
          ∙ (ap (λ r. and_then r (λ got. do release; pure got)) run
              ∙ ap (λ b. and_then (release_if b t) (λ _. pure (take_line killed n n l.lines).0))
                  lock),
      Holds-lock false _ t holds,
      refl,
    )
