-- ===== src/Buddy/Tree.antt =====
-- What the array of nodes stands for: a tree of blocks, and the two operations on it.
pub mod Places
pub mod Lookup
pub mod Merged
pub mod Largest
use zalloc.Base.{
  ℕ, zero, suc, ◌+◌, ◌-◌, ◌*◌, ◌^◌, ◌≡◌, refl, Bool, true, false, ◌&&◌, Option, none, some, ltb,
  ◌==◌, if◌then◌else◌, arith, Option-cases, inl, inr, two_pow_pos, two_pow_suc, ◌<◌,
}

-- A block that is free, one that holds an allocation of so many bytes, or two halves.
pub data Block : Type 0 where
  unused : Block
  used : ℕ → Block
  split : Block → Block → Block

unfoldable pub is_full : Block → Bool
is_full unused = false
is_full (used s) = true
is_full (split l r) = is_full l && is_full r

-- A free block split down to its first sub-block `k` levels below, which is taken.
unfoldable pub tower : ℕ → ℕ → Block
tower zero s = used s
tower (suc k) s = split (tower k s) unused

abbrev pub in_left : Block → Option (ℕ × Block) → Option (ℕ × Block) → Option (ℕ × Block)
in_left r (some (o, l)) rest = some (o, split l r)
in_left r none rest = rest

abbrev pub in_right : ℕ → Block → Option (ℕ × Block) → Option (ℕ × Block)
in_right k l (some (o, r)) = some (2 ^ k + o, split l r)
in_right k l none = none

-- First fit: the first free block `k` levels below, counted in blocks of that size, and the tree
-- once it is taken for `s` bytes.
unfoldable pub place : ℕ → ℕ → Block → Option (ℕ × Block)
unfolding tower
place k s unused = some (0, tower k s)
place k s (used _) = none
place zero s (split l r) = none
place (suc k) s (split l r) = in_left r (place k s l) (in_right k l (place k s r))

-- Two halves that are both free are one free block.
unfoldable pub merge : Block → Block → Block
merge unused unused = unused
merge l r = split l r

abbrev pub in_lower : Block → Option Block → Option Block
in_lower r none = none
in_lower r (some l) = some (merge l r)

abbrev pub in_upper : Block → Option Block → Option Block
in_upper l none = none
in_upper l (some r) = some (merge l r)

-- Frees the block that begins at page `o` of a block of `2 ^ d` pages.
unfoldable pub release : ℕ → ℕ → Block → Option Block
release d o unused = none
release d o (used s) = if o == 0 then some unused else none
release zero o (split l r) = none
release (suc d) o (split l r) =
    if ltb o (2 ^ d) then in_lower r (release d o l) else in_upper l (release d (o - 2 ^ d) r)

-- The bytes and the height of the allocation that begins at page `o` of a block of `2 ^ d` pages.
unfoldable pub lookup : ℕ → ℕ → Block → Option (ℕ × ℕ)
lookup d o unused = none
lookup d o (used s) = if o == 0 then some (s, d) else none
lookup zero o (split l r) = none
lookup (suc d) o (split l r) = if ltb o (2 ^ d) then lookup d o l else lookup d (o - 2 ^ d) r

-- The index of the node that the walk to page `o` ends at.
unfoldable pub index_at : ℕ → ℕ → ℕ → Block → ℕ
index_at d o i unused = i
index_at d o i (used s) = i
index_at zero o i (split l r) = i
index_at (suc d) o i (split l r) =
    if ltb o (2 ^ d) then index_at d o (i * 2 + 1) l else index_at d (o - 2 ^ d) (i * 2 + 2) r

-- A block that is not free does not merge.
pub data IsTaken : Block → Type 0 where
  is_used : (s : ℕ) → IsTaken (used s)
  is_split : (l r : Block) → IsTaken (split l r)

pub merge-IsTaken_right : {t : Block} → IsTaken t → (l : Block) → merge l t ≡ split l t
unfolding merge
merge-IsTaken_right (is_used s) l = ground arith
merge-IsTaken_right (is_split a b) l = ground arith

pub merge-IsTaken_left : {t : Block} → IsTaken t → (r : Block) → merge t r ≡ split t r
unfolding merge
merge-IsTaken_left (is_used s) r = refl
merge-IsTaken_left (is_split a b) r = refl

-- No two free halves stand side by side.
abbrev pub IsMerged : Block → Type 0
IsMerged unused = Unit
IsMerged (used _) = Unit
IsMerged (split l r) = (merge l r ≡ split l r) × IsMerged l × IsMerged r

pub place-full : (k s : ℕ) (t : Block) → is_full t ≡ true → place k s t ≡ none
unfolding is_full place
place-full k s unused h = ground arith
place-full k s (used _) h = refl
place-full zero s (split l r) h = refl
place-full (suc k) s (split l r) h = ground (arith, place-full k s l, place-full k s r)

pub place-none :
    (k s : ℕ) (l r : Block)
    → place (suc k) s (split l r) ≡ none
    → (place k s l ≡ none) × (place k s r ≡ none)
unfolding place
place-none k s l r h = ground arith

pub place-unused : (k s : ℕ) → place k s unused ≡ some (0, tower k s)
unfolding place
place-unused zero s = refl
place-unused (suc k) s = refl

-- The offset is that of one of the `2 ^ k` blocks.
pub place-lt : (k s : ℕ) (t : Block) {o : ℕ} {t' : Block} → place k s t ≡ some (o, t') → o < 2 ^ k
unfolding place
place-lt zero s unused p = ground arith
place-lt (suc k) s unused p = ground (arith, two_pow_pos (suc k))
place-lt k s (used _) p = cc
place-lt zero s (split l r) p = cc
place-lt (suc k) s (split l r) p = elim (Option-cases (place k s l)) [
  | inl el ↦ elim (Option-cases (place k s r)) [
    | inl er ↦ ground arith
    | inr ((a, u), er) ↦ ground (arith, place-lt k s r er, two_pow_suc k)
  ]
  | inr ((a, u), el) ↦ ground (arith, place-lt k s l el, two_pow_suc k)
]
