-- ===== src/Buddy/Tree/Lookup.antt =====
-- The allocations of a tree as a finite map from the page where each begins.
use zalloc.Base.{
  ℕ, zero, suc, ◌+◌, ◌-◌, ◌*◌, ◌^◌, ◌≤◌, ◌<◌, ◌≡◌, refl, false, none, some, ltb, ◌==◌,
  if◌then◌else◌, arith, Option-cases, Bool-cases, inl, inr, two_pow_pos, two_pow_suc,
}
use zalloc.Buddy.Tree.{Block, unused, used, split, tower, place, merge, release, lookup}
use zalloc.Buddy.Tree.Places.{
  Places, free, left, right, place-Places, Places-lt, offset_low, offset_high,
}

-- No allocation begins past the end, and each ends within the block.
pub lookup-le :
    (d p : ℕ) (t : Block) {s : ℕ} {h : ℕ} → lookup d p t ≡ some (s, h) → p + 2 ^ h ≤ 2 ^ d
unfolding lookup
lookup-le d p unused e = cc
lookup-le d p (used s) e = ground arith
lookup-le zero p (split l r) e = cc
lookup-le (suc d) p (split l r) {s} {h} e = ground (
  arith,
  two_pow_suc d,
  lookup-le d p l {s = s} {h = h},
  lookup-le d (p - 2 ^ d) r {s = s} {h = h},
)

-- Two allocations that begin at different pages have no page in common.
pub lookup_disjoint :
    (d p q : ℕ) (t : Block) {s h s' h' : ℕ}
    → lookup d p t ≡ some (s, h)
    → lookup d q t ≡ some (s', h')
    → p < q
    → p + 2 ^ h ≤ q
unfolding lookup
lookup_disjoint d p q unused e e' lt = cc
lookup_disjoint d p q (used s) e e' lt = ground arith
lookup_disjoint zero p q (split l r) e e' lt = cc
lookup_disjoint (suc d) p q (split l r) {s} {h} {s'} {h'} e e' lt = ground (
  arith,
  two_pow_suc d,
  lookup_disjoint d p q l {s = s} {h = h} {s' = s'} {h' = h'},
  lookup_disjoint d (p - 2 ^ d) (q - 2 ^ d) r {s = s} {h = h} {s' = s'} {h' = h'},
  lookup-le d p l {s = s} {h = h},
)

tower-lookup :
    (k e d s p : ℕ) → d ≡ k + e → lookup d p (tower k s) ≡ (if p == 0 then some (s, e) else none)
unfolding tower lookup
tower-lookup zero e d s p h = let same : d ≡ e = omega arith in rw same refl
tower-lookup (suc k) e zero s p h = absurd (omega arith)
tower-lookup (suc k) e (suc d) s p h = elim (Bool-cases (ltb p (2 ^ d))) [
  | inl low ↦ rw low (tower-lookup k e d s p (omega arith))
  | inr high ↦
      let later : (p == 0) ≡ false = let q = two_pow_pos d in ground arith in rw (high, later) refl
]

Places-lookup :
    {s k o : ℕ} {t t' : Block} (e d p : ℕ)
    → d ≡ k + e
    → Places s k t o t'
    → lookup d p t' ≡ (if p == o * 2 ^ e then some (s, e) else lookup d p t)
unfolding lookup
Places-lookup {s} e d p h (free {k}) =
    let first : 0 * 2 ^ e ≡ 0 = omega arith in rw (first, tower-lookup k e d s p h) refl
Places-lookup e zero p h (left q) = absurd (omega arith)
Places-lookup e (suc d) p h (left {k} {o} {l} {r} q) =
    let at = offset_low k e d o (omega arith) (Places-lt q) in
    ground (arith, Places-lookup e d p (omega arith) q)
Places-lookup e zero p h (right q w) = absurd (omega arith)
Places-lookup e (suc d) p h (right {k} {o} {o'} {l} {r} q w) =
    let at = offset_high k e d o o' (omega arith) w in
    ground (arith, Places-lookup e d (p - 2 ^ d) (omega arith) q)

-- The first fit adds one allocation and changes no other.
pub lookup-place :
    (k e d s p : ℕ) (t : Block) {o : ℕ} {t' : Block}
    → d ≡ k + e
    → place k s t ≡ some (o, t')
    → lookup d p t' ≡ (if p == o * 2 ^ e then some (s, e) else lookup d p t)
lookup-place k e d s p t h w = Places-lookup e d p h (place-Places k s t w)

-- The page that the first fit takes begins no allocation.
Places-fresh :
    {s k o : ℕ} {t t' : Block} (e d : ℕ)
    → d ≡ k + e
    → Places s k t o t'
    → lookup d (o * 2 ^ e) t ≡ none
unfolding lookup
Places-fresh e d h free = refl
Places-fresh e zero h (left q) = absurd (omega arith)
Places-fresh e (suc d) h (left {k} {o} q) =
    let at = offset_low k e d o (omega arith) (Places-lt q) in
    ground (arith, Places-fresh e d (omega arith) q)
Places-fresh e zero h (right q w) = absurd (omega arith)
Places-fresh e (suc d) h (right {k} {o} {o'} q w) =
    let at = offset_high k e d o o' (omega arith) w in
    let rest : o' * 2 ^ e - 2 ^ d ≡ o * 2 ^ e = omega arith in
    let high : ltb (o' * 2 ^ e) (2 ^ d) ≡ false = ground arith in
    rw (high, rest) (Places-fresh e d (omega arith) q)

pub lookup-place_fresh :
    (k e d s : ℕ) (t : Block) {o : ℕ} {t' : Block}
    → d ≡ k + e
    → place k s t ≡ some (o, t')
    → lookup d (o * 2 ^ e) t ≡ none
lookup-place_fresh k e d s t h w = Places-fresh e d h (place-Places k s t w)

lookup-merge : (d p : ℕ) (l r : Block) → lookup (suc d) p (merge l r) ≡ lookup (suc d) p (split l r)
unfolding lookup merge
lookup-merge d p unused unused = ground arith
lookup-merge d p unused (used s) = refl
lookup-merge d p unused (split a b) = refl
lookup-merge d p (used s) r = refl
lookup-merge d p (split a b) r = refl

-- A release removes the allocation that begins at its page, and changes no other.
pub lookup-release_map :
    (d o p : ℕ) (t : Block) {t' : Block}
    → release d o t ≡ some t'
    → lookup d p t' ≡ (if p == o then none else lookup d p t)
unfolding lookup release
lookup-release_map d o p unused e = cc
lookup-release_map d o p (used s) e = ground arith
lookup-release_map zero o p (split l r) e = cc
lookup-release_map (suc d) o p (split l r) e = elim (Bool-cases (ltb o (2 ^ d))) [
  | inl low ↦ elim (Option-cases (release d o l)) [
    | inl w ↦ ground arith
    | inr (l', w) ↦ ground (arith, lookup-merge d p l' r, lookup-release_map d o p l w)
  ]
  | inr high ↦ elim (Option-cases (release d (o - 2 ^ d) r)) [
    | inl w ↦ ground arith
    | inr (r', w) ↦
        ground (arith, lookup-merge d p l r', lookup-release_map d (o - 2 ^ d) (p - 2 ^ d) r w)
  ]
]
