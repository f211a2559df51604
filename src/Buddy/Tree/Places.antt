-- ===== src/Buddy/Tree/Places.antt =====
-- The first fit as a relation, for proofs by induction on where the block was taken.
use mathlib.Core.Path.{subst}
use native.Mathlib.Nat.{mul-le-mul_right}
use zalloc.Base.{
  ℕ, zero, suc, ◌+◌, ◌*◌, ◌^◌, ◌<◌, ◌≡◌, refl, ap, Option, none, some, arith, two_pow_pos,
  two_pow_suc, two_pow_add, two_pow_eq,
}
use zalloc.Buddy.Tree.{Block, unused, used, split, tower, place, in_left, in_right}

-- Below a block of `t`, the `o`-th sub-block `k` levels down was free; with it taken it is `t'`.
pub data Places (s : ℕ) : ℕ → Block → ℕ → Block → Type 0 where
  free : {k : ℕ} → Places s k unused 0 (tower k s)
  left :
      {k o : ℕ} {l l' r : Block} → Places s k l o l' → Places s (suc k) (split l r) o (split l' r)
  right :
      {k o o' : ℕ} {l r r' : Block}
      → Places s k r o r'
      → o' ≡ 2 ^ k + o
      → Places s (suc k) (split l r) o' (split l r')

abbrev PlacesAs : ℕ → ℕ → Block → Option (ℕ × Block) → Type 0
PlacesAs s k t none = Unit
PlacesAs s k t (some (o, t')) = Places s k t o t'

halves :
    (s k : ℕ) (l r : Block) (x y : Option (ℕ × Block))
    → PlacesAs s k l x
    → PlacesAs s k r y
    → PlacesAs s (suc k) (split l r) (in_left r x (in_right k l y))
halves s k l r (some (o, l')) y p q = left p
halves s k l r none (some (o, r')) p q = right q refl
halves s k l r none none p q = tt

all_places : (s k : ℕ) (t : Block) → PlacesAs s k t (place k s t)
unfolding place
all_places s zero unused = free
all_places s (suc k) unused = free
all_places s k (used u) = tt
all_places s zero (split l r) = tt
all_places s (suc k) (split l r) =
    halves s k l r (place k s l) (place k s r) (all_places s k l) (all_places s k r)

pub place-Places :
    (k s : ℕ) (t : Block) {o : ℕ} {t' : Block} → place k s t ≡ some (o, t') → Places s k t o t'
place-Places k s t e = subst (PlacesAs s k t) e (all_places s k t)

pub Places-lt : {s k o : ℕ} {t t' : Block} → Places s k t o t' → o < 2 ^ k
Places-lt (free {k}) = omega (arith, two_pow_pos k)
Places-lt (left {k} p) = omega (arith, Places-lt p, two_pow_suc k)
Places-lt (right {k} p e) = omega (arith, Places-lt p, two_pow_suc k)

-- The offset in pages of a block in the left half, and of one in the right half.
pub offset_low : (k e d o : ℕ) → d ≡ k + e → o < 2 ^ k → o * 2 ^ e < 2 ^ d
offset_low k e d o h small = omega (
  arith,
  mul-le-mul_right {m = o + 1} {n = 2 ^ k} (2 ^ e) (omega arith),
  two_pow_eq d (k + e) h,
  two_pow_add k e,
  two_pow_pos e,
)

pub offset_high : (k e d o o' : ℕ) → d ≡ k + e → o' ≡ 2 ^ k + o → o' * 2 ^ e ≡ 2 ^ d + o * 2 ^ e
offset_high k e d o o' h p =
    omega (arith, two_pow_eq d (k + e) h, two_pow_add k e, ap (λ (n : ℕ). n * 2 ^ e) p)
