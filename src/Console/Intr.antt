-- ===== src/Console/Intr.antt =====
-- consoleintr() of xv6-public/console.c implements the keys.
use os_11740_assignment.Base.{
  ℕ, ◌+◌, ◌<◌, ◌≡◌, refl, ap, subst, ◌∙◌, arith, Bool, true, false, Bool-cases, inl, inr, ◌||◌,
  ◌==◌, ◌!=◌, List, [], ◌∷◌, length, All,
}
use os_11740_assignment.Base.Run.{ok, pure, and_then, when, ◌>>=◌, ◌>>◌}
use os_11740_assignment.Console.{
  Console, release, input_buf, ctrl_h, ctrl_p, ctrl_u, rubout, erase, key, intr_loop, consoleintr,
}
use os_11740_assignment.Console.Screen.{acquire_if, release_if}
use os_11740_assignment.Console.Keys.{
  Typed, drop_last, press, Holds, one_less, erase-Holds, at_end, before_end, kill_line-Killed,
  After,
}
use os_11740_assignment.Console.Typing.{type_char-After}

erase_key-After :
    (l : Typed) (s : Console)
    → Holds l s
    → (t : Console) × (when (s.e != s.w) erase s ≡ ok tt t) × After l (drop_last l l.edit) s t
erase_key-After l s h = go l.edit refl
  where
    go :
        (m : List ℕ)
        → l.edit ≡ m
        → (t : Console) × (when (s.e != s.w) erase s ≡ ok tt t) × After l (drop_last l m) s t
    go [] e =
        (s, ap (λ b. when b erase s) (at_end l s h (ap (λ m. length m) e)), (h, refl, ground arith))
    go (c ∷ cs) e =
        let (erased, g) =
          erase-Holds c l.lines cs s
            (subst (λ m. Holds (record { lines = l.lines; edit = m }) s) e h) in
        (
          one_less s,
          ap (λ b. when b erase s) (before_end l s h (omega (arith, ap (λ m. length m) e)))
              ∙ erased,
          (g, refl, ground arith),
        )

-- One key does to the ring what it does to the line: no key makes the kernel panic or go on for ever.
key-After :
    (c : ℕ) (l : Typed) (s : Console)
    → c < 256
    → Holds l s
    → (t : Console) × (key c s ≡ ok (c == ctrl_p) t) × After l (press c l) s t
unfolding key press
key-After c l s byte h = elim (Bool-cases (c == ctrl_p)) [
  | inl e ↦ (s, rw e refl, rw e (h, refl, ground arith))
  | inr e ↦ elim (Bool-cases (c == ctrl_u)) [
    | inl u ↦
        let (t, run, (holds, lock, woken)) =
          kill_line-Killed (input_buf + 1) l.lines l.edit s (omega (arith, h.room)) h in
        rw (e, u)
          (t, ap (λ r. and_then r (λ _. pure false)) run, (holds, lock, ground (arith, woken)))
    | inr u ↦ elim (Bool-cases ((c == ctrl_h) || (c == rubout))) [
      | inl b ↦
          let (t, run, after) = erase_key-After l s h in
          rw (e, u, b) (t, ap (λ r. and_then r (λ _. pure false)) run, after)
      | inr b ↦
          let (t, run, after) = type_char-After c l s byte h in
          rw (e, u, b) (t, ap (λ r. and_then r (λ _. pure false)) run, after)
    ]
  ]
]

-- The effect of keys, and whether one of them asks for the list of processes.
unfoldable pub press_all : List ℕ → Typed → Typed
press_all [] l = l
press_all (c ∷ cs) l = press_all cs (press c l)

unfoldable pub lists : List ℕ → Bool → Bool
lists [] b = b
lists (c ∷ cs) b = lists cs (b || (c == ctrl_p))

intr_loop-press_all :
    (chars : List ℕ) (b : Bool) (l : Typed) (s : Console)
    → All (λ c. c < 256) chars
    → Holds l s
    → (t : Console) × (intr_loop chars b s ≡ ok (lists chars b) t)
      × Holds (press_all chars l) t
      × (t.locked ≡ s.locked)
unfolding intr_loop press_all lists
intr_loop-press_all [] b l s bytes h = (s, refl, h, refl)
intr_loop-press_all (c ∷ cs) b l s (byte, bytes) h =
    let (t, run, (holds, lock, _)) = key-After c l s byte h in
    let (u, end, all, last) =
      intr_loop-press_all cs (b || (c == ctrl_p)) (press c l) t bytes holds in
    (u, ap (λ r. and_then r (λ listing. intr_loop cs (b || listing))) run ∙ end, all, last ∙ lock)

pub Holds-lock :
    (b : Bool) (l : Typed) (s : Console) → Holds l s → Holds l (record s { locked = b })
Holds-lock b l s h = record {
  running = record { going = h.running.going; on_screen = h.running.on_screen };
  room = h.room;
  r_word = h.r_word;
  w_at = h.w_at;
  e_at = h.e_at;
  lines_stored = h.lines_stored;
  edit_stored = h.edit_stored;
  plain = h.plain;
}

-- The interrupt handler does to the ring what the keys do to the line, one after the other, and then has
-- given up its lock; it neither panics nor goes on for ever. The conditions are that the characters are
-- bytes, that the ring holds the line, and that this processor does not hold the lock.
pub consoleintr-press_all :
    (chars : List ℕ) (l : Typed) (s : Console)
    → All (λ c. c < 256) chars
    → Holds l s
    → s.locked ≡ false
    → (t : Console) × (consoleintr chars s ≡ ok (lists chars false) t)
      × Holds (press_all chars l) t
      × (t.locked ≡ false)
unfolding consoleintr
consoleintr-press_all chars l s bytes h free =
    let (t, run, holds, lock) =
      intr_loop-press_all chars false l (record s { locked = true }) bytes
        (Holds-lock true l s h) in
    (
      record t { locked = false },
      ap (λ b. (acquire_if b s >> (do dump ← intr_loop chars false; release; pure dump)) s) free
          ∙ (ap (λ r. and_then r (λ dump. do release; pure dump)) run
              ∙ ap (λ b. and_then (release_if b t) (λ _. pure (lists chars false))) lock),
      Holds-lock false (press_all chars l) t holds,
      refl,
    )
