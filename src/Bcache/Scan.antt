-- ===== src/Bcache/Scan.antt =====
-- The scans of bget() of xv6-public/bio.c over the list of buffers.
use os_11740_assignment.Base.{
  ℕ, ◌≡◌, ◌⊎◌, inl, inr, refl, ap, ◌∙◌, Bool, true, false, Option, none, some, List, [], ◌∷◌,
  if◌then◌else◌,
}
use os_11740_assignment.Bcache.{Buf, is_block, is_free, find_cached, find_free}

-- The buffer is in the list.
abbrev pub Listed : ℕ → List ℕ → Type 0
Listed i [] = ⊥
Listed i (j ∷ l) = (i ≡ j) ⊎ Listed i l

-- What a scan for a block finds.
abbrev pub Finds : ℕ → ℕ → (ℕ → Buf) → List ℕ → Option ℕ → Type 0
Finds dev b f l none = (i : ℕ) → Listed i l → is_block dev b (f i) ≡ false
Finds dev b f l (some i) = Listed i l × (is_block dev b (f i) ≡ true)

module _ (dev b : ℕ) (f : ℕ → Buf) where
  Finds-if :
      (i : ℕ) (l : List ℕ) (here : Bool) (r : Option ℕ)
      → is_block dev b (f i) ≡ here
      → Finds dev b f l r
      → Finds dev b f (i ∷ l) (if here then some i else r)
  Finds-if i l true r e h = (inl refl, e)
  Finds-if i l false (some j) e h = (inr h.0, h.1)
  Finds-if i l false none e h = λ j listed. elim listed [
    | inl same ↦ ap (λ x. is_block dev b (f x)) same ∙ e
    | inr later ↦ h j later
  ]

  pub find_cached-Finds : (l : List ℕ) → Finds dev b f l (find_cached dev b f l)
  unfolding find_cached
  find_cached-Finds [] = λ i listed. elim listed [ ]
  find_cached-Finds (i ∷ l) = Finds-if i l _ _ refl (find_cached-Finds l)

-- What the scan for a free buffer finds.
abbrev pub Frees : (ℕ → Buf) → List ℕ → Option ℕ → Type 0
Frees f l none = (i : ℕ) → Listed i l → is_free (f i) ≡ false
Frees f l (some i) = Listed i l × (is_free (f i) ≡ true)

module _ (f : ℕ → Buf) where
  Frees-if :
      (i : ℕ) (l : List ℕ) (here : Bool) (r : Option ℕ)
      → is_free (f i) ≡ here
      → Frees f l r
      → Frees f
          (i ∷ l)
          (elim r as (λ _. Option ℕ) [ some j ↦ some j | none ↦ if here then some i else none ])
  Frees-if i l here (some j) e h = (inr h.0, h.1)
  Frees-if i l true none e h = (inl refl, e)
  Frees-if i l false none e h = λ j listed. elim listed [
    | inl same ↦ ap (λ x. is_free (f x)) same ∙ e
    | inr later ↦ h j later
  ]

  pub find_free-Frees : (l : List ℕ) → Frees f l (find_free f l)
  unfolding find_free
  find_free-Frees [] = λ i listed. elim listed [ ]
  find_free-Frees (i ∷ l) = Frees-if i l _ (find_free f l) refl (find_free-Frees l)
