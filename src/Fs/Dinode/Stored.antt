-- ===== src/Fs/Dinode/Stored.antt =====
-- What iupdate() of xv6-public/fs.c stores in the block of an inode is what ilock() copies out.
use os_11740_assignment.Base.{
  ℕ, zero, suc, ◌+◌, ◌*◌, ◌^◌, ◌≤◌, ◌<◌, ◌≡◌, inl, refl, sym, ap, ◌∙◌, arith,
}
use os_11740_assignment.Fs.{Inode, ndirect}
use os_11740_assignment.Fs.Words.{
  get16, put16, get32, put32, get16-put16, get32-put32, get16-put16_ne, get16-put32_ne,
  get32-put32_ne,
}
use os_11740_assignment.Fs.Dinode.{put_addrs, put_dinode}

-- The fields are bit patterns of their C types.
pub record IsStorable (n : Inode) : Type 0 where
  pub type : n.type < 2 ^ 16
  pub major : n.major < 2 ^ 16
  pub minor : n.minor < 2 ^ 16
  pub nlink : n.nlink < 2 ^ 16
  pub size : n.size < 2 ^ 32
  pub addrs : (i : ℕ) → n.addrs i < 2 ^ 32

get16-put_addrs :
    (k i : ℕ) (a : ℕ → ℕ) (o : ℕ) (d : ℕ → ℕ) (p : ℕ)
    → p + 2 ≤ o
    → get16 (put_addrs k i a o d) p ≡ get16 d p
unfolding put_addrs
get16-put_addrs zero i a o d p h = refl
get16-put_addrs (suc k) i a o d p h =
    get16-put_addrs k (i + 1) a (o + 4) (put32 o (a i) d) p (omega arith)
    ∙ get16-put32_ne d o (a i) p (inl h)

get32-put_addrs_below :
    (k i : ℕ) (a : ℕ → ℕ) (o : ℕ) (d : ℕ → ℕ) (p : ℕ)
    → p + 4 ≤ o
    → get32 (put_addrs k i a o d) p ≡ get32 d p
unfolding put_addrs
get32-put_addrs_below zero i a o d p h = refl
get32-put_addrs_below (suc k) i a o d p h =
    get32-put_addrs_below k (i + 1) a (o + 4) (put32 o (a i) d) p (omega arith)
    ∙ get32-put32_ne d o (a i) p (inl h)

get32-put_addrs :
    (k i : ℕ) (a : ℕ → ℕ) (o : ℕ) (d : ℕ → ℕ) (j : ℕ)
    → ((x : ℕ) → a x < 2 ^ 32)
    → j < k
    → get32 (put_addrs k i a o d) (o + 4 * j) ≡ a (i + j)
unfolding put_addrs
get32-put_addrs zero i a o d j small h = absurd (omega arith)
get32-put_addrs (suc k) i a o d zero small h =
    ap (get32 (put_addrs k (i + 1) a (o + 4) (put32 o (a i) d))) (zero_off o)
    ∙ get32-put_addrs_below k (i + 1) a (o + 4) (put32 o (a i) d) o (omega arith)
    ∙ get32-put32 d o (a i) (small i)
    ∙ ap a (sym (zero_in i))
  where
    zero_off : (o : ℕ) → o + 4 * 0 ≡ o
    zero_off o = omega arith

    zero_in : (i : ℕ) → i + 0 ≡ i
    zero_in i = omega arith
get32-put_addrs (suc k) i a o d (suc j) small h =
    ap (get32 (put_addrs k (i + 1) a (o + 4) (put32 o (a i) d))) (next_off o j)
    ∙ get32-put_addrs k (i + 1) a (o + 4) (put32 o (a i) d) j small (omega arith)
    ∙ ap a (next_in i j)
  where
    next_off : (o j : ℕ) → o + 4 * suc j ≡ o + 4 + 4 * j
    next_off o j = omega arith

    next_in : (i j : ℕ) → i + 1 + j ≡ i + suc j
    next_in i j = omega arith

module _ (n : Inode) (st : IsStorable n) (o : ℕ) (d : ℕ → ℕ) where
  -- Every field is read back from its place.
  pub get-put_dinode :
      (get16 (put_dinode o n d) o ≡ n.type)
      × (get16 (put_dinode o n d) (o + 2) ≡ n.major)
      × (get16 (put_dinode o n d) (o + 4) ≡ n.minor)
      × (get16 (put_dinode o n d) (o + 6) ≡ n.nlink)
      × (get32 (put_dinode o n d) (o + 8) ≡ n.size)
      × ((i : ℕ) → i ≤ ndirect → get32 (put_dinode o n d) (o + 12 + 4 * i) ≡ n.addrs i)
  unfolding put_dinode
  get-put_dinode =
      let d₁ = put16 o n.type d in
      let d₂ = put16 (o + 2) n.major d₁ in
      let d₃ = put16 (o + 4) n.minor d₂ in
      let d₄ = put16 (o + 6) n.nlink d₃ in
      let d₅ = put32 (o + 8) n.size d₄ in
      (
        get16-put_addrs 13 0 n.addrs (o + 12) d₅ o (omega arith)
            ∙ get16-put32_ne d₄ (o + 8) n.size o (inl (omega arith))
            ∙ get16-put16_ne d₃ (o + 6) n.nlink o (inl (omega arith))
            ∙ get16-put16_ne d₂ (o + 4) n.minor o (inl (omega arith))
            ∙ get16-put16_ne d₁ (o + 2) n.major o (inl (omega arith))
            ∙ get16-put16 d o n.type st.type,
        get16-put_addrs 13 0 n.addrs (o + 12) d₅ (o + 2) (omega arith)
            ∙ get16-put32_ne d₄ (o + 8) n.size (o + 2) (inl (omega arith))
            ∙ get16-put16_ne d₃ (o + 6) n.nlink (o + 2) (inl (omega arith))
            ∙ get16-put16_ne d₂ (o + 4) n.minor (o + 2) (inl (omega arith))
            ∙ get16-put16 d₁ (o + 2) n.major st.major,
        get16-put_addrs 13 0 n.addrs (o + 12) d₅ (o + 4) (omega arith)
            ∙ get16-put32_ne d₄ (o + 8) n.size (o + 4) (inl (omega arith))
            ∙ get16-put16_ne d₃ (o + 6) n.nlink (o + 4) (inl (omega arith))
            ∙ get16-put16 d₂ (o + 4) n.minor st.minor,
        get16-put_addrs 13 0 n.addrs (o + 12) d₅ (o + 6) (omega arith)
            ∙ get16-put32_ne d₄ (o + 8) n.size (o + 6) (inl (omega arith))
            ∙ get16-put16 d₃ (o + 6) n.nlink st.nlink,
        get32-put_addrs_below 13 0 n.addrs (o + 12) d₅ (o + 8) (omega arith)
            ∙ get32-put32 d₄ (o + 8) n.size st.size,
        λ i le.
            get32-put_addrs 13 0 n.addrs (o + 12) d₅ i st.addrs (omega arith)
            ∙ ap n.addrs (omega arith),
      )
