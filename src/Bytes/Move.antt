-- ===== src/Bytes/Move.antt =====
-- memmove() of xv6-public/string.c copies the old bytes, also where the two ranges overlap.
use os_11740_assignment.Base.{
  ℕ, zero, suc, ◌+◌, ◌-◌, ◌≤◌, ◌≡◌, ◌⊎◌, inl, inr, ◌∙◌, ap₂, arith, ◌&&◌, ltb, leb, if◌then◌else◌,
  update, Bool-cases,
}
use os_11740_assignment.Bytes.{Memory, move_down, move_up, memmove}

-- The memory in which the `n` bytes from `dst` on are those that `m` has from `src` on.
abbrev pub copied : Memory → ℕ → ℕ → ℕ → Memory
copied m dst src n x = if leb dst x && ltb x (dst + n) then m (src + (x - dst)) else m x

move_up-copied :
    (n : ℕ) (m : Memory) (d s : ℕ)
    → (d ≤ s) ⊎ (s + n ≤ d)
    → (x : ℕ) → move_up n m d s x ≡ copied m d s n x
unfolding move_up
move_up-copied zero m d s apart x = ground arith
move_up-copied (suc n) m d s apart x =
    move_up-copied n (update m d (m s)) (d + 1) (s + 1) (ground arith) x ∙ ground arith

move_down-copied :
    (n : ℕ) (m : Memory) (d s : ℕ)
    → s ≤ d
    → (x : ℕ) → move_down n m (d + n) (s + n) x ≡ copied m d s n x
unfolding move_down
move_down-copied zero m d s below x = ground arith
move_down-copied (suc n) m d s below x =
    ap₂ (λ a b. move_down n (update m a (m b)) a b x) (omega arith) (omega arith)
    ∙ move_down-copied n (update m (d + n) (m (s + n))) d s below x
    ∙ ground arith

-- memmove() leaves at `dst` the bytes that stood at `src` before the call, however the two ranges
-- overlap, and changes no other byte.
pub memmove-copied : (m : Memory) (dst src n x : ℕ) → memmove m dst src n x ≡ copied m dst src n x
unfolding memmove
memmove-copied m dst src n x = elim (Bool-cases (ltb src dst && ltb dst (src + n))) [
  | inl e ↦ rw e (move_down-copied n m dst src (ground arith) x)
  | inr e ↦ rw e (move_up-copied n m dst src (ground arith) x)
]
