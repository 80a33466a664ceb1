-- ===== src/Queue/Ring.antt =====
-- Positions and indices of include/papper/detail/queue.h: messages that lie at positions less than
-- a capacity apart do not overlap in a buffer of twice the capacity.
use papper.Common.{
  ℕ, ◌+◌, ◌-◌, ◌/◌, ◌%◌, ◌≤◌, ◌<◌, ◌≡◌, subst, ◌⊎◌, inl, inr, false, List, [], ◌∷◌, ◌++◌, arith,
  ltb, ltb→lt, Bool-cases, length,
}
use papper.Memory.{Bytes, blit, Holds, Holds-blit_ne}
use native.Mathlib.Nat.{mod-lt, div-add-mod}
use papper.Common.Bits.{mod_unique}

-- The bytes of some messages together.
abbrev pub total : List Bytes → ℕ
total [] = 0
total (m ∷ ms) = length m + total ms

pub total-append : (ms ns : List Bytes) → total (ms ++ ns) ≡ total ms + total ns
total-append [] ns = omega arith
total-append (m ∷ ms) ns = omega (arith, total-append ms ns)

-- The messages lie in the buffer one behind the other, each in one piece, from position `p` on.
abbrev pub HoldsAll : ℕ → Bytes → ℕ → List Bytes → Type 0
HoldsAll cap buf p [] = Unit {0}
HoldsAll cap buf p (m ∷ ms) = Holds buf (p % cap) m × HoldsAll cap buf (p + length m) ms

-- The index `d` positions further on: round the end at most once.
shifted_index :
    (cap p d : ℕ)
    → 0 < cap
    → d ≤ cap
    → ((p + d) % cap ≡ p % cap + d) ⊎ ((p + d) % cap + cap ≡ p % cap + d)
shifted_index cap p d pos h = elim (Bool-cases (ltb (p % cap + d) cap)) [
  | inl below ↦ inl (
      mod_unique (p + d) cap (p / cap) (p % cap + d) (omega (arith, div-add-mod p cap))
        (ltb→lt _ _ below))
  | inr above ↦ inr (
      omega (
        arith,
        mod_unique (p + d) cap (p / cap + 1) (p % cap + d - cap)
            (omega (arith, div-add-mod p cap, le_of_ltb _ _ above))
            (omega (arith, mod-lt p pos, le_of_ltb _ _ above)),
        le_of_ltb _ _ above,
      ))
]
  where
    le_of_ltb : (a b : ℕ) → ltb a b ≡ false → b ≤ a
    le_of_ltb a b h = ground arith

-- `s` bytes at position `p` and `n` bytes at position `p + d` do not overlap.
indices_apart :
    (cap p d s n : ℕ)
    → 0 < cap
    → s ≤ d
    → d + n ≤ cap
    → (p % cap + s ≤ (p + d) % cap) ⊎ ((p + d) % cap + n ≤ p % cap)
indices_apart cap p d s n pos h k = elim (shifted_index cap p d pos (omega arith)) [
  | inl e ↦ inl (omega arith)
  | inr e ↦ inr (omega arith)
]

-- Writing part of a new message behind the messages that are there leaves these alone.
pub HoldsAll-blit :
    (cap : ℕ) (buf : Bytes) (p : ℕ) (ms : List Bytes) (k : ℕ) (bs : Bytes)
    → 0 < cap
    → total ms + k + length bs ≤ cap
    → HoldsAll cap buf p ms
    → HoldsAll cap (blit buf ((p + total ms) % cap + k) bs) p ms
HoldsAll-blit cap buf p [] k bs pos fits h = tt
HoldsAll-blit cap buf p (m ∷ ms) k bs pos fits h = (
  Holds-blit_ne buf _ bs (p % cap) m apart h.0,
  subst (λ (x : ℕ). HoldsAll cap (blit buf (x % cap + k) bs) (p + length m) ms) (omega arith)
      (HoldsAll-blit cap buf (p + length m) ms k bs pos (omega arith) h.1),
)
  where
    apart :
        (p % cap + length m ≤ (p + total (m ∷ ms)) % cap + k)
        ⊎ ((p + total (m ∷ ms)) % cap + k + length bs ≤ p % cap)
    apart =
        elim (indices_apart cap p (total (m ∷ ms)) (length m) (k + length bs) pos (omega arith)
          (omega arith)) [ inl before ↦ inl (omega arith) | inr after ↦ inr (omega arith) ]

-- A message that is complete joins those before it.
pub HoldsAll-snoc :
    (cap : ℕ) (buf : Bytes) (p : ℕ) (ms : List Bytes) (m : Bytes)
    → HoldsAll cap buf p ms
    → Holds buf ((p + total ms) % cap) m
    → HoldsAll cap buf p (ms ++ m ∷ [])
HoldsAll-snoc cap buf p [] m h n = (subst (λ (x : ℕ). Holds buf (x % cap) m) (omega arith) n, tt)
HoldsAll-snoc cap buf p (x ∷ ms) m h n = (
  h.0,
  HoldsAll-snoc cap buf (p + length x) ms m h.1
      (subst (λ (y : ℕ). Holds buf (y % cap) m) (omega arith) n),
)
