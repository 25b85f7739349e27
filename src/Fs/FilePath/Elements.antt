-- ===== src/Fs/FilePath/Elements.antt =====
-- skipelem() of xv6-public/fs.c takes a path apart.
use os_11740_assignment.Base.{
  ℕ, ◌<◌, ◌≡◌, ◌≢◌, refl, sym, subst, ap, ◌⊎◌, ◌∙◌, arith, false, ◌==◌, leb, Option, none, some,
  List, [], ◌∷◌, ◌++◌, append-nil, length, length-append, take, All, if◌then◌else◌, inl, inr,
}
use os_11740_assignment.Fs.{dirsiz}
use os_11740_assignment.Fs.FilePath.{skip_slashes, split_elem, elem_at, skipelem, is_absolute}

abbrev pub slash : ℕ
slash = b'/'

-- A run of slashes, and a run of other characters.
abbrev pub AllSlashes : List ℕ → Type 0
AllSlashes = All (λ c. c ≡ slash)

abbrev pub NoSlash : List ℕ → Type 0
NoSlash = All (λ c. c ≢ slash)

-- The slashes that skip_slashes() passes.
pub slashes : List ℕ → List ℕ
slashes [] = []
slashes (c ∷ cs) = if c == b'/' then c ∷ slashes cs else []

slashes-skip_slashes : (p : List ℕ) → slashes p ++ skip_slashes p ≡ p
unfolding slashes skip_slashes
slashes-skip_slashes [] = refl
slashes-skip_slashes (c ∷ cs) = ground (arith, slashes-skip_slashes cs)

slashes-AllSlashes : (p : List ℕ) → AllSlashes (slashes p)
unfolding slashes
slashes-AllSlashes [] = tt
slashes-AllSlashes (c ∷ cs) = ground (arith, slashes-AllSlashes cs)

is_absolute-skip_slashes : (p : List ℕ) → is_absolute (skip_slashes p) ≡ false
unfolding skip_slashes
is_absolute-skip_slashes [] = refl
is_absolute-skip_slashes (c ∷ cs) = ground (arith, is_absolute-skip_slashes cs)

split_elem-append : (p : List ℕ) → (split_elem p).0 ++ (split_elem p).1 ≡ p
unfolding split_elem
split_elem-append [] = refl
split_elem-append (c ∷ cs) = ground (arith, split_elem-append cs)

split_elem-NoSlash : (p : List ℕ) → NoSlash (split_elem p).0
unfolding split_elem
split_elem-NoSlash [] = tt
split_elem-NoSlash (c ∷ cs) = ground (arith, split_elem-NoSlash cs)

split_elem-nil : (p : List ℕ) → slashes (split_elem p).1 ≡ [] → skip_slashes (split_elem p).1 ≡ []
unfolding split_elem slashes skip_slashes
split_elem-nil [] e = refl
split_elem-nil (c ∷ cs) e = ground (arith, split_elem-nil cs)

split_elem-cons : (c : ℕ) (cs : List ℕ) → (c == b'/') ≡ false → (split_elem (c ∷ cs)).0 ≢ []
unfolding split_elem
split_elem-cons c cs e z = ground (arith, e, z)

-- `path` is an element, of which `name` is the copied part, between slashes, and then `rest`.
pub record Splits (path name rest : List ℕ) : Type 0 where
  pub before : List ℕ
  pub elem : List ℕ
  pub after : List ℕ
  pub whole : path ≡ before ++ (elem ++ (after ++ rest))
  pub before_slashes : AllSlashes before
  pub elem_ne : elem ≢ []
  pub elem_plain : NoSlash elem
  pub after_slashes : AllSlashes after
  pub last : after ≡ [] → rest ≡ []
  pub rest_relative : is_absolute rest ≡ false
  pub copied : name ≡ (if leb dirsiz (length elem) then take dirsiz elem else elem)

abbrev pub Takes : List ℕ → Option (List ℕ × List ℕ) → Type 0
Takes path none = AllSlashes path
Takes path (some (name, rest)) = Splits path name rest

Takes-elem_at :
    (before p : List ℕ)
    → AllSlashes before
    → is_absolute p ≡ false
    → Takes (before ++ p) (elem_at p)
Takes-elem_at before [] all rel = subst AllSlashes (sym (append-nil before)) all
Takes-elem_at before (c ∷ cs) all rel =
    let q = split_elem (c ∷ cs) in
    record {
      before = before;
      elem = q.0;
      after = slashes q.1;
      whole =
          ap (λ p. before ++ p)
            (sym (split_elem-append (c ∷ cs))
              ∙ ap (λ r. q.0 ++ r) (sym (slashes-skip_slashes q.1)));
      before_slashes = all;
      elem_ne = split_elem-cons c cs rel;
      elem_plain = split_elem-NoSlash (c ∷ cs);
      after_slashes = slashes-AllSlashes q.1;
      last = split_elem-nil (c ∷ cs);
      rest_relative = is_absolute-skip_slashes q.1;
      copied = refl;
    }

-- skipelem() returns 0 exactly for a path of slashes alone. Otherwise it passes the leading slashes, one
-- whole element and the slashes behind it: the element is not empty and has no slash, its first DIRSIZ
-- characters are copied, and the path that is left begins with no slash.
pub skipelem-Takes : (path : List ℕ) → Takes path (skipelem path)
unfolding skipelem
skipelem-Takes path =
    subst (λ p. Takes p (skipelem path)) (slashes-skip_slashes path)
      (Takes-elem_at (slashes path) (skip_slashes path) (slashes-AllSlashes path)
        (is_absolute-skip_slashes path))

List-cases : (l : List ℕ) → (l ≡ []) ⊎ ((c : ℕ) × (cs : List ℕ) × (l ≡ c ∷ cs))
List-cases [] = inl refl
List-cases (c ∷ cs) = inr (c, cs, refl)

-- Less of the path is left.
pub length-Splits : {path name rest : List ℕ} → Splits path name rest → length rest < length path
length-Splits {path} {name} {rest} s = elim (List-cases s.elem) [
  | inl nil ↦ absurd (s.elem_ne nil)
  | inr (c, cs, e) ↦ omega (
    arith,
    ap length s.whole,
    length-append s.before (s.elem ++ (s.after ++ rest)),
    length-append s.elem (s.after ++ rest),
    length-append s.after rest,
    ap length e,
  )
]
