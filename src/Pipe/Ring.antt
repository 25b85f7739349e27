-- ===== src/Pipe/Ring.antt =====
-- The bytes in the ring of xv6-public/pipe.c, in the order in which they were written.
use os_11740_assignment.Base.{
  ℕ, zero, suc, ◌+◌, ◌-◌, ◌%◌, ◌^◌, ◌≤◌, ◌<◌, ◌≡◌, refl, ◌∙◌, ap, sym, arith, get_or, drop, ◌==◌,
  List, [], ◌∷◌, ◌++◌, length, update, update_self, update_ne,
}
use os_11740_assignment.Mmu.{u32}
use os_11740_assignment.Pipe.{Pipe, pipesize, put_byte}

-- The `k` bytes from position `r` on.
unfoldable pub contents : (ℕ → ℕ) → ℕ → ℕ → List ℕ
contents d r zero = []
contents d r (suc k) = d (r % pipesize) ∷ contents d (r + 1) k

-- How many bytes are in the pipe.
abbrev pub fill : Pipe → ℕ
fill p = u32 (p.nwrite + 2 ^ 32 - p.nread)

-- The pipe holds the bytes `q`, the oldest one first.
pub record Holds (q : List ℕ) (p : Pipe) : Type 0 where
  pub small_read : p.nread < 2 ^ 32
  pub small_write : p.nwrite < 2 ^ 32
  pub fits : fill p ≤ pipesize
  pub queue : contents p.bytes p.nread (fill p) ≡ q

pub length-contents : (d : ℕ → ℕ) (r k : ℕ) → length (contents d r k) ≡ k
unfolding contents
length-contents d r zero = refl
length-contents d r (suc k) = omega (arith, length-contents d (r + 1) k)

contents-cong :
    (d : ℕ → ℕ) (r r' k : ℕ) → r % pipesize ≡ r' % pipesize → contents d r k ≡ contents d r' k
unfolding contents
contents-cong d r r' zero e = refl
contents-cong d r r' (suc k) e = cc (e, contents-cong d (r + 1) (r' + 1) k (omega arith))

-- A byte outside of the range does not count.
contents-update :
    (d : ℕ → ℕ) (r k w c : ℕ)
    → r + k ≤ w
    → w < r + pipesize
    → contents (update d (w % pipesize) c) r k ≡ contents d r k
unfolding contents
contents-update d r zero w c h h' = refl
contents-update d r (suc k) w c h h' = cc (
  update_ne d (w % pipesize) c (r % pipesize) (omega arith),
  contents-update d (r + 1) k w c (omega arith) (omega arith),
)

contents_snoc :
    (d : ℕ → ℕ) (r k : ℕ) → contents d r (suc k) ≡ contents d r k ++ (d ((r + k) % pipesize) ∷ [])
unfolding contents
contents_snoc d r zero = ap (λ x. d (x % pipesize) ∷ []) (omega arith)
contents_snoc d r (suc k) =
    ap (λ l. d (r % pipesize) ∷ l)
      (contents_snoc d (r + 1) k
        ∙ ap (λ x. contents d (r + 1) k ++ (d (x % pipesize) ∷ [])) (omega arith))

module _ {q : List ℕ} {p : Pipe} (h : Holds q p) where
  pub length-Holds : length q ≡ fill p
  length-Holds = ap length (sym h.queue) ∙ length-contents p.bytes p.nread (fill p)

  -- Both counters wrap; the ring is full exactly if the test of pipewrite() says so.
  pub is_full : (p.nwrite == u32 (p.nread + pipesize)) ≡ (length q == pipesize)
  is_full = ground (arith, length-Holds, h.small_read, h.small_write, h.fits)

  -- It is empty exactly if the counters are equal.
  pub is_empty : (p.nread == p.nwrite) ≡ (length q == 0)
  is_empty = ground (arith, length-Holds, h.small_read, h.small_write, h.fits)

  -- A byte that is written goes to the end.
  pub put_byte-Holds : (c : ℕ) → length q < pipesize → Holds (q ++ (c ∷ [])) (put_byte c p)
  put_byte-Holds c room =
      let place : p.nwrite % pipesize ≡ (p.nread + fill p) % pipesize =
        omega (arith, h.small_read, h.small_write, h.fits) in
      let grown : fill (put_byte c p) ≡ suc (fill p) =
        omega (arith, length-Holds, h.small_read, h.small_write, h.fits) in
      record {
        small_read = h.small_read;
        small_write = omega arith;
        fits = omega (arith, length-Holds, grown);
        queue =
            ap (contents (put_byte c p).bytes p.nread) grown
            ∙ contents_snoc (put_byte c p).bytes p.nread (fill p)
            ∙ cc (
              place,
              contents-update p.bytes p.nread (fill p) (p.nread + fill p) c (omega arith)
                  (omega (arith, length-Holds)),
              update_self p.bytes (p.nwrite % pipesize) c,
              h.queue,
            );
      }

-- A byte that is read is the oldest one.
pub get_byte-Holds :
    {c : ℕ} {q : List ℕ} {p : Pipe}
    → Holds (c ∷ q) p
    → (p.bytes (p.nread % pipesize) ≡ c) × Holds q (record p { nread = u32 (p.nread + 1) })
unfolding contents
get_byte-Holds {c} {q} {p} h =
    let shrunk : fill p ≡ suc (fill (record p { nread = u32 (p.nread + 1) })) =
      omega (arith, length-Holds h, h.small_read, h.small_write, h.fits) in
    let split : contents p.bytes p.nread (suc (fill (record p { nread = u32 (p.nread + 1) })))
        ≡ c ∷ q =
      ap (contents p.bytes p.nread) (sym shrunk) ∙ h.queue in
    (
      ap (λ l. get_or l 0 0) split,
      record {
        small_read = omega arith;
        small_write = h.small_write;
        fits = omega (arith, h.fits, shrunk);
        queue =
            contents-cong p.bytes (u32 (p.nread + 1)) (p.nread + 1) _ (omega arith)
            ∙ ap (drop 1) split;
      },
    )
