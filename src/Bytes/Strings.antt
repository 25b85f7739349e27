-- ===== src/Bytes/Strings.antt =====
-- memcmp() and safestrcpy() of xv6-public/string.c.
use os_11740_assignment.Base.{
  ℕ, zero, suc, ◌+◌, ◌-◌, ◌≤◌, ◌<◌, ◌≡◌, ◌≢◌, ◌⊎◌, ◌↔◌, inl, inr, refl, arith, ◌==◌, update,
  Bool-cases, ne→==_false,
}
use os_11740_assignment.Bytes.{Memory, memcmp, safe_loop, safestrcpy}

module _ {m : Memory} (bytes : (x : ℕ) → m x < 256) where
  memcmp-zero : (n a b : ℕ) → memcmp m a b n ≡ 0 → (i : ℕ) → i < n → m (a + i) ≡ m (b + i)
  unfolding memcmp
  memcmp-zero zero a b e i lt = absurd (omega arith)
  memcmp-zero (suc n) a b e i lt = ground (
    arith,
    bytes a,
    bytes b,
    λ (h : memcmp m (a + 1) (b + 1) n ≡ 0). memcmp-zero n (a + 1) (b + 1) h (i - 1),
  )

  zero-memcmp : (n a b : ℕ) → ((i : ℕ) → i < n → m (a + i) ≡ m (b + i)) → memcmp m a b n ≡ 0
  unfolding memcmp
  zero-memcmp zero a b h = refl
  zero-memcmp (suc n) a b h =
      let rest = zero-memcmp n (a + 1) (b + 1) (λ i lt. ground (arith, h (i + 1))) in
      ground (arith, h 0, rest)

  -- On bytes, memcmp() is 0 exactly if the two ranges are equal.
  pub memcmp_iff : (a b n : ℕ) → (memcmp m a b n ≡ 0) ↔ ((i : ℕ) → i < n → m (a + i) ≡ m (b + i))
  memcmp_iff a b n = (memcmp-zero n a b, zero-memcmp n a b)

-- `r` is `m` with a string at `s`, terminated within `k + 1` bytes: the text at `t` up to its end,
-- or its first `k` bytes.
pub record IsCopy (k : ℕ) (m : Memory) (s t : ℕ) (r : Memory) : Type 0 where
  pub end : ℕ
  pub inside : end ≤ k
  pub terminated : r (s + end) ≡ 0
  pub text : (i : ℕ) → i < end → r (s + i) ≡ m (t + i)
  pub no_nul : (i : ℕ) → i < end → m (t + i) ≢ 0
  pub whole : (m (t + end) ≡ 0) ⊎ (end ≡ k)
  pub rest : (x : ℕ) → (x < s) ⊎ (s + k < x) → r x ≡ m x

safe_loop-IsCopy :
    (k : ℕ) (m : Memory) (s t : ℕ) → (s + k < t) ⊎ (t + k < s) → IsCopy k m s t (safe_loop k m s t)
unfolding safe_loop
safe_loop-IsCopy zero m s t apart = record {
  end = 0;
  inside = omega arith;
  terminated = ground arith;
  text = λ i lt. absurd (omega arith);
  no_nul = λ i lt. absurd (omega arith);
  whole = inr refl;
  rest = λ x out. ground arith;
}
safe_loop-IsCopy (suc k) m s t apart = elim (Bool-cases (m t == 0)) [
  | inl e ↦ record {
    end = 0;
    inside = omega arith;
    terminated = ground arith;
    text = λ i lt. absurd (omega arith);
    no_nul = λ i lt. absurd (omega arith);
    whole = inl (ground arith);
    rest = λ x out. ground arith;
  }
  | inr e ↦
      let c = safe_loop-IsCopy k (update m s (m t)) (s + 1) (t + 1) (ground arith) in
      record {
        end = c.end + 1;
        inside = omega (arith, c.inside);
        terminated = ground (arith, c.terminated);
        text = λ i lt. ground (arith, c.text (i - 1), c.rest s, c.inside);
        no_nul = λ i lt. ground (arith, c.no_nul (i - 1), c.inside);
        whole = ground (arith, c.whole, c.inside);
        rest = λ x out. ground (arith, c.rest x);
      }
]

-- safestrcpy() into `n` bytes, for ranges that do not overlap: what stands at `s` afterwards is a
-- string that ends within the `n` bytes, and is the text at `t`, cut off at `n - 1` bytes; no byte
-- outside of the `n` is written.
pub safestrcpy-IsCopy :
    (m : Memory) (s t n : ℕ)
    → 0 < n
    → (s + n ≤ t) ⊎ (t + n ≤ s)
    → IsCopy (n - 1) m s t (safestrcpy m s t n)
unfolding safestrcpy
safestrcpy-IsCopy m s t n some_room apart =
    rw (ne→==_false n 0 (omega arith)) (safe_loop-IsCopy (n - 1) m s t (ground arith))
