-- ===== src/Descr/Slots.antt =====
-- How many descriptors stand for a file, in xv6-public/sysfile.c.
use os_11740_assignment.Base.{
  ℕ, zero, suc, ◌+◌, ◌^◌, ◌≤◌, ◌<◌, ◌≡◌, ◌≢◌, refl, sym, ap, ap₂, ◌∙◌, arith, Bool-cases, inl, inr,
  ◌==◌, ==_iff, Option, none, some, List, [], ◌∷◌, length, if◌then◌else◌, update, update_self,
  update_ne,
}
use os_11740_assignment.File.{Ftable, fileclose}
use os_11740_assignment.File.Handles.{uses, without, Counts}
use os_11740_assignment.Base.Run.{ok}
use os_11740_assignment.File.Refs.{fileclose_shared-Counts, fileclose_last-Counts}
use os_11740_assignment.Descr.{find_fd, fd_slot, nofile}

-- 1 if the descriptor stands for file `g`.
abbrev pub one : ℕ → Option ℕ → ℕ
one g none = 0
one g (some f) = if f == g then 1 else 0

unfoldable pub holders : ℕ → (ℕ → Option ℕ) → ℕ → ℕ
holders g o zero = 0
holders g o (suc k) = one g (o k) + holders g o k

abbrev cons_some : Option ℕ → List ℕ → List ℕ
cons_some none fs = fs
cons_some (some f) fs = f ∷ fs

-- The files of the first `k` slots.
unfoldable pub opened : (ℕ → Option ℕ) → ℕ → List ℕ
opened o zero = []
opened o (suc k) = cons_some (o k) (opened o k)

uses-cons_some :
    (g : ℕ) (r : Option ℕ) (fs : List ℕ) → uses g (cons_some r fs) ≡ one g r + uses g fs
unfolding uses
uses-cons_some g none fs = omega arith
uses-cons_some g (some f) fs = refl

pub uses-opened : (g : ℕ) (o : ℕ → Option ℕ) (k : ℕ) → uses g (opened o k) ≡ holders g o k
unfolding opened uses holders
uses-opened g o zero = refl
uses-opened g o (suc k) =
    uses-cons_some g (o k) (opened o k) ∙ ap (λ n. one g (o k) + n) (uses-opened g o k)

length-cons_some : (r : Option ℕ) (fs : List ℕ) → length (cons_some r fs) ≤ length fs + 1
length-cons_some none fs = omega arith
length-cons_some (some f) fs = omega arith

pub length-opened : (o : ℕ → Option ℕ) (k : ℕ) → length (opened o k) ≤ k
unfolding opened
length-opened o zero = omega arith
length-opened o (suc k) = omega (arith, length-cons_some (o k) (opened o k), length-opened o k)

holders_above :
    (g : ℕ) (o : ℕ → Option ℕ) (i : ℕ) (r : Option ℕ) (k : ℕ)
    → k ≤ i
    → holders g (update o i r) k ≡ holders g o k
unfolding holders
holders_above g o i r zero le = refl
holders_above g o i r (suc k) le =
    ap₂ (λ a b. one g a + b) (update_ne o i r k (λ e. absurd (omega (arith, e))))
      (holders_above g o i r k (omega arith))

-- A slot that is set takes its old file's place.
pub holders_set :
    (g : ℕ) (o : ℕ → Option ℕ) (i : ℕ) (r : Option ℕ) (k : ℕ)
    → i < k
    → one g (o i) + holders g (update o i r) k ≡ one g r + holders g o k
unfolding holders
holders_set g o i r zero lt = absurd (omega arith)
holders_set g o i r (suc k) lt = elim (Bool-cases (i == k)) [
  | inl e ↦
      let same : i ≡ k = (==_iff i k).0 e in
      let there : one g (update o i r k) ≡ one g r =
        ap (λ j. one g (update o i r j)) (sym same) ∙ ap (one g) (update_self o i r) in
      let here : one g (o i) ≡ one g (o k) = ap (λ j. one g (o j)) same in
      let above : holders g (update o i r) k ≡ holders g o k =
        holders_above g o i r k (omega (arith, same)) in
      omega (arith, here, there, above)
  | inr e ↦
      let other : one g (update o i r k) ≡ one g (o k) =
        ap (one g) (update_ne o i r k (λ q. ground (arith, e, q))) in
      let below = holders_set g o i r k (ground (arith, e)) in omega (arith, other, below)
]

pub Counts-change :
    (hs gs : List ℕ) (t : Ftable)
    → Counts hs t
    → ((g : ℕ) → uses g hs ≡ uses g gs)
    → length gs < 2 ^ 31
    → Counts gs t
Counts-change hs gs t c same few = record {
  count = λ g. c.count g ∙ same g;
  few = few;
  unlocked = c.unlocked;
}

-- fileclose() of an open file takes one handle away, whether it is the last one or not.
pub fileclose-Counts :
    (f : ℕ) (hs : List ℕ) (t : Ftable)
    → Counts hs t
    → 0 < uses f hs
    → (u : Ftable) × (fileclose f t ≡ ok tt u) × Counts (without f hs) u
fileclose-Counts f hs t c used = elim (Bool-cases (uses f hs == 1)) [
  | inl e ↦
      let (u, run, counts, _, _) = fileclose_last-Counts c f ((==_iff (uses f hs) 1).0 e) in
      (u, run, counts)
  | inr e ↦
      let (u, run, counts, _, _) = fileclose_shared-Counts c f (ground (arith, e)) in
      (u, run, counts)
]

-- No descriptor of the process from `fd` up to `n` is free.
abbrev pub Taken : (ℕ → Option ℕ) → ℕ → ℕ → ℕ → Type 0
Taken o p fd n = (m : ℕ) → fd ≤ m → m < n → o (fd_slot p m) ≢ none

-- What fdalloc() finds is the lowest free descriptor, and if it finds none, none is free.
abbrev pub Finds : (ℕ → Option ℕ) → ℕ → ℕ → Option ℕ → Type 0
Finds o p fd none = Taken o p fd nofile
Finds o p fd (some n) = (n < nofile) × (o (fd_slot p n) ≡ none) × Taken o p fd n

Taken-suc :
    (o : ℕ → Option ℕ) (p fd n f : ℕ)
    → o (fd_slot p fd) ≡ some f
    → Taken o p (fd + 1) n
    → Taken o p fd n
Taken-suc o p fd n f held h m le lt = elim (Bool-cases (m == fd)) [
  | inl same ↦ λ e. none_some (sym e ∙ (ap (λ x. o (fd_slot p x)) ((==_iff m fd).0 same) ∙ held))
  | inr other ↦ h m (ground (arith, other)) lt
]
  where
    none_some : none ≡ some f → ⊥
    none_some e = cc

find_fd-Finds : (o : ℕ → Option ℕ) (p k fd : ℕ) → fd + k ≡ nofile → Finds o p fd (find_fd o p k fd)
unfolding find_fd
find_fd-Finds o p zero fd end = λ m le lt. absurd (omega arith)
find_fd-Finds o p (suc k) fd end =
    go (o (fd_slot p fd)) refl (find_fd o p k (fd + 1)) (find_fd-Finds o p k (fd + 1) (omega arith))
  where
    go :
        (r : Option ℕ)
        → o (fd_slot p fd) ≡ r
        → (later : Option ℕ) → Finds o p (fd + 1) later
        → Finds o p fd (elim r as (λ _. Option ℕ) [ none ↦ some fd | some f ↦ later ])
    go none e later h = (omega arith, e, λ m le lt. absurd (omega arith))
    go (some f) e none h = Taken-suc o p fd nofile f e h
    go (some f) e (some n) (small, free, h) = (small, free, Taken-suc o p fd n f e h)

pub fdalloc-Finds : (o : ℕ → Option ℕ) (p : ℕ) → Finds o p 0 (find_fd o p nofile 0)
fdalloc-Finds o p = find_fd-Finds o p nofile 0 (omega arith)
