-- ===== src/Console/RoundTrip.antt =====
-- A line that is typed at the console of xv6-public/console.c is what a reader gets.
use os_11740_assignment.Base.{
  ℕ, zero, suc, ◌+◌, ◌≤◌, ◌<◌, ◌≡◌, refl, ap, subst, ◌∙◌, arith, Bool, false, ◌==◌, List, [], ◌∷◌,
  ◌++◌, length, All,
}
use os_11740_assignment.Base.Run.{ok, and_then, ◌>>◌}
use os_11740_assignment.Console.{
  Console, input_buf, ctrl_d, consoleintr, Reading, returned, read_more, consoleread,
}
use os_11740_assignment.Console.Screen.{rev_onto}
use os_11740_assignment.Console.Stored.{length-rev_onto}
use os_11740_assignment.Console.Keys.{Typed, press, Holds}
use os_11740_assignment.Console.Intr.{press_all, lists, consoleintr-press_all}
use os_11740_assignment.Console.Lines.{take_line, consoleread-take_line}

-- Printable, and so no editing key.
abbrev pub IsPrintable : ℕ → Type 0
IsPrintable c = (32 ≤ c) × (c < 127)

press_printable :
    (c : ℕ) (l : Typed)
    → IsPrintable c
    → length l.lines + length l.edit + 1 < input_buf
    → press c l ≡ record { lines = l.lines; edit = c ∷ l.edit }
unfolding press
press_printable c l (le, lt) room = ground arith

press_all_printable :
    (line : List ℕ) (l : Typed)
    → All IsPrintable line
    → length l.lines + length l.edit + length line < input_buf
    → press_all line l ≡ record { lines = l.lines; edit = rev_onto line l.edit }
unfolding press_all
press_all_printable [] l h room = refl
press_all_printable (c ∷ cs) l (p, h) room =
    ap (press_all cs) (press_printable c l p (omega arith))
    ∙ press_all_printable cs (record { lines = l.lines; edit = c ∷ l.edit }) h (omega arith)

press_all_append :
    (xs ys : List ℕ) (l : Typed) → press_all (xs ++ ys) l ≡ press_all ys (press_all xs l)
unfolding press_all
press_all_append [] ys l = refl
press_all_append (x ∷ xs) ys l = press_all_append xs ys (press x l)

rev_onto-rev_onto : (xs ys zs : List ℕ) → rev_onto (rev_onto xs ys) zs ≡ rev_onto ys (xs ++ zs)
rev_onto-rev_onto [] ys zs = refl
rev_onto-rev_onto (x ∷ xs) ys zs = rev_onto-rev_onto xs (x ∷ ys) zs

press_return :
    (m : List ℕ)
    → length m < input_buf
    → press b'\r' (record { lines = []; edit = m })
      ≡ record { lines = rev_onto m (b'\n' ∷ []); edit = [] }
unfolding press
press_return m room = ground arith

-- The keys of a line leave the line for a reader.
line_typed :
    (line : List ℕ)
    → All IsPrintable line
    → length line < input_buf
    → press_all (line ++ (b'\r' ∷ [])) (record { lines = []; edit = [] })
      ≡ record { lines = line ++ (b'\n' ∷ []); edit = [] }
unfolding press_all
line_typed line h room =
    press_all_append line (b'\r' ∷ []) (record { lines = []; edit = [] })
    ∙ (ap (press b'\r')
          (press_all_printable line (record { lines = []; edit = [] }) h (omega arith))
        ∙ (press_return (rev_onto line []) (omega (arith, length-rev_onto line []))
            ∙ ap (λ x. record { lines = x; edit = [] }) (rev_onto-rev_onto line [] (b'\n' ∷ []))))

take_line_printable :
    (killed : Bool) (target n : ℕ) (line : List ℕ)
    → All IsPrintable line
    → length line < n
    → take_line killed target n (line ++ (b'\n' ∷ [])) ≡ (returned (line ++ (b'\n' ∷ [])), [])
unfolding take_line
take_line_printable killed target zero line h lt = absurd (omega arith)
take_line_printable killed target (suc n) [] h lt = refl
take_line_printable killed target (suc n) (c ∷ cs) ((ge, le), h) lt =
    rw (no_end, no_newline)
      (ap (λ (r : Reading × List ℕ). (read_more c r.0, r.1))
        (take_line_printable killed target n cs h (omega arith)))
  where
    no_end : (c == ctrl_d) ≡ false
    no_end = ground arith

    no_newline : (c == b'\n') ≡ false
    no_newline = ground arith

lists_printable :
    (line : List ℕ) → All IsPrintable line → lists (line ++ (b'\r' ∷ [])) false ≡ false
unfolding lists
lists_printable [] h = refl
lists_printable (c ∷ cs) ((ge, le), h) =
    ap (lists (cs ++ (b'\r' ∷ []))) (ground arith) ∙ lists_printable cs h

bytes_printable : (line : List ℕ) → All IsPrintable line → All (λ c. c < 256) (line ++ (b'\r' ∷ []))
bytes_printable [] h = (omega arith, tt)
bytes_printable (c ∷ cs) ((ge, le), h) = (omega arith, bytes_printable cs h)

-- A line that is typed, with the key Return behind it, is what the next read gets, with a newline behind
-- it, and nothing is left then. The conditions are that its characters are printable, that it has fewer
-- than 128 of them and fewer than the read asks for, that the ring is empty, and that this processor does
-- not hold the lock.
pub consoleread-consoleintr :
    (killed : Bool) (n : ℕ) (line : List ℕ) (s : Console)
    → All IsPrintable line
    → length line < input_buf
    → length line < n
    → Holds (record { lines = []; edit = [] }) s
    → s.locked ≡ false
    → (t : Console) × ((do consoleintr (line ++ (b'\r' ∷ [])); consoleread killed n) s
        ≡ ok (returned (line ++ (b'\n' ∷ []))) t)
      × Holds (record { lines = []; edit = [] }) t
consoleread-consoleintr killed n line s h room lt holds free =
    let (t, run, typed, unlocked) =
      consoleintr-press_all (line ++ (b'\r' ∷ [])) (record { lines = []; edit = [] }) s
        (bytes_printable line h) holds free in
    let there = subst (λ l. Holds l t) (line_typed line h room) typed in
    let (u, got, left, _) =
      consoleread-take_line killed n (record { lines = line ++ (b'\n' ∷ []); edit = [] }) t there
        unlocked in
    let taken = take_line_printable killed n n line h lt in
    (
      u,
      ap (λ r. and_then r (λ _. consoleread killed n)) run
          ∙ (got ∙ ap (λ (r : Reading × List ℕ). ok r.0 u) taken),
      subst (λ (r : Reading × List ℕ). Holds (record { lines = r.1; edit = [] }) u) taken left,
    )
