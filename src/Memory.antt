-- ===== src/Memory.antt =====
-- Raw storage: what `std::memcpy` into and out of a byte array does. A byte is a number.
use papper.Common.{
  ℕ, zero, suc, ◌+◌, ◌≤◌, ◌<◌, ◌≡◌, refl, ap, ◌∙◌, subst, ◌⊎◌, Option, some, List, [], ◌∷◌, ◌++◌,
  arith, length, get_elem?, set, length-set, get_elem?-set_self, get_elem?-set_ne, ◌>>=◌,
}

abbrev pub Bytes : Type 0
Bytes = List ℕ

-- `memcpy(&buf[i], bs, n)` for the `n` bytes of `bs`.
unfoldable pub blit : Bytes → ℕ → Bytes → Bytes
blit buf i [] = buf
blit buf i (b ∷ bs) = blit (set buf i b) (i + 1) bs

-- `memcpy(out, &buf[i], n)`; `none` is a read past the end of the array.
unfoldable pub load : Bytes → ℕ → ℕ → Option Bytes
load buf i zero = some []
load buf i (suc n) = get_elem? buf i >>= λ b. load buf (i + 1) n >>= λ bs. some (b ∷ bs)

-- The array holds `bs` from index `i` on.
abbrev pub Holds : Bytes → ℕ → Bytes → Type 0
Holds buf i [] = Unit {0}
Holds buf i (b ∷ bs) = (get_elem? buf i ≡ some b) × Holds buf (i + 1) bs

pub length-blit : (buf : Bytes) (i : ℕ) (bs : Bytes) → length (blit buf i bs) ≡ length buf
unfolding blit
length-blit buf i [] = refl
length-blit buf i (b ∷ bs) = length-blit (set buf i b) (i + 1) bs ∙ length-set buf i b

-- A copy leaves every byte outside its range alone.
get_elem?-blit_ne :
    (buf : Bytes) (i : ℕ) (bs : Bytes) (j : ℕ)
    → (j < i) ⊎ (i + length bs ≤ j)
    → get_elem? (blit buf i bs) j ≡ get_elem? buf j
unfolding blit
get_elem?-blit_ne buf i [] j h = refl
get_elem?-blit_ne buf i (b ∷ bs) j h =
    get_elem?-blit_ne (set buf i b) (i + 1) bs j (omega arith)
    ∙ get_elem?-set_ne buf i j b (omega arith)

pub Holds-blit_ne :
    (buf : Bytes) (i : ℕ) (bs : Bytes) (j : ℕ) (cs : Bytes)
    → (j + length cs ≤ i) ⊎ (i + length bs ≤ j)
    → Holds buf j cs
    → Holds (blit buf i bs) j cs
Holds-blit_ne buf i bs j [] h p = tt
Holds-blit_ne buf i bs j (c ∷ cs) h p = (
  get_elem?-blit_ne buf i bs j (omega arith) ∙ p.0,
  Holds-blit_ne buf i bs (j + 1) cs (omega arith) p.1,
)

-- A copy inside the array is there afterwards.
pub Holds-blit :
    (buf : Bytes) (i : ℕ) (bs : Bytes) → i + length bs ≤ length buf → Holds (blit buf i bs) i bs
unfolding blit
Holds-blit buf i [] h = tt
Holds-blit buf i (b ∷ bs) h = (
  get_elem?-blit_ne (set buf i b) (i + 1) bs i (omega arith)
      ∙ get_elem?-set_self buf i b (omega arith),
  Holds-blit (set buf i b) (i + 1) bs (omega (arith, length-set buf i b)),
)

-- Reading back what the array holds.
pub load-Holds :
    (buf : Bytes) (i : ℕ) (bs : Bytes) → Holds buf i bs → load buf i (length bs) ≡ some bs
unfolding load
load-Holds buf i [] h = refl
load-Holds buf i (b ∷ bs) h = rw (h.0, load-Holds buf (i + 1) bs h.1)

pub Holds-append :
    (buf : Bytes) (i : ℕ) (bs cs : Bytes)
    → Holds buf i (bs ++ cs)
    → Holds buf i bs × Holds buf (i + length bs) cs
Holds-append buf i [] cs h = (tt, subst (λ k. Holds buf k cs) (omega arith) h)
Holds-append buf i (b ∷ bs) cs h =
    let (l, r) = Holds-append buf (i + 1) bs cs h.1 in
    ((h.0, l), subst (λ k. Holds buf k cs) (omega arith) r)

pub Holds-append_intro :
    (buf : Bytes) (i : ℕ) (bs cs : Bytes)
    → Holds buf i bs
    → Holds buf (i + length bs) cs
    → Holds buf i (bs ++ cs)
Holds-append_intro buf i [] cs h k = subst (λ (x : ℕ). Holds buf x cs) (omega arith) k
Holds-append_intro buf i (b ∷ bs) cs h k = (
  h.0,
  Holds-append_intro buf (i + 1) bs cs h.1 (subst (λ (x : ℕ). Holds buf x cs) (omega arith) k),
)

pub blit-append :
    (buf : Bytes) (i : ℕ) (bs cs : Bytes)
    → blit buf i (bs ++ cs) ≡ blit (blit buf i bs) (i + length bs) cs
unfolding blit
blit-append buf i [] cs = ap (λ k. blit buf k cs) (omega arith)
blit-append buf i (b ∷ bs) cs =
    blit-append (set buf i b) (i + 1) bs cs
    ∙ ap (λ k. blit (blit (set buf i b) (i + 1) bs) k cs) (omega arith)
