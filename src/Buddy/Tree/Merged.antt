-- ===== src/Buddy/Tree/Merged.antt =====
-- Free halves stay merged, and a release undoes an allocation.
use mathlib.Core.Path.{subst}
use zalloc.Base.{
  ℕ, zero, suc, ◌+◌, ◌-◌, ◌*◌, ◌^◌, ◌≡◌, refl, ap, true, false, Option, none, some, ltb, ◌==◌,
  arith, Bool-cases, inl, inr, two_pow_pos,
}
use zalloc.Buddy.Tree.{
  Block, unused, used, split, tower, place, merge, release, in_lower, in_upper, IsMerged, IsTaken,
  is_used, is_split, merge-IsTaken_left, merge-IsTaken_right,
}
use zalloc.Buddy.Tree.Places.{
  Places, free, left, right, place-Places, Places-lt, offset_low, offset_high,
}

tower-IsTaken : (k s : ℕ) → IsTaken (tower k s)
unfolding tower
tower-IsTaken zero s = is_used s
tower-IsTaken (suc k) s = is_split (tower k s) unused

-- A tree that takes an allocation is not free.
Places-IsTaken : {s k o : ℕ} {t t' : Block} → Places s k t o t' → IsTaken t'
Places-IsTaken {s} (free {k}) = tower-IsTaken k s
Places-IsTaken (left {l'} {r} p) = is_split l' r
Places-IsTaken (right {l} {r'} p e) = is_split l r'

tower-IsMerged : (k s : ℕ) → IsMerged (tower k s)
unfolding tower
tower-IsMerged zero s = tt
tower-IsMerged (suc k) s = (merge-IsTaken_left (tower-IsTaken k s) unused, tower-IsMerged k s, tt)

Places-IsMerged : {s k o : ℕ} {t t' : Block} → Places s k t o t' → IsMerged t → IsMerged t'
Places-IsMerged {s} (free {k}) m = tower-IsMerged k s
Places-IsMerged (left {r} p) m =
    (merge-IsTaken_left (Places-IsTaken p) r, Places-IsMerged p m.1, m.2)
Places-IsMerged (right {l} p e) m =
    (merge-IsTaken_right (Places-IsTaken p) l, m.1, Places-IsMerged p m.2)

pub place-IsMerged :
    (k s : ℕ) (t : Block) {o : ℕ} {t' : Block}
    → place k s t ≡ some (o, t')
    → IsMerged t
    → IsMerged t'
place-IsMerged k s t e m = Places-IsMerged (place-Places k s t e) m

merge-IsMerged : (l r : Block) → IsMerged l → IsMerged r → IsMerged (merge l r)
unfolding merge
merge-IsMerged unused unused hl hr = tt
merge-IsMerged unused (used s) hl hr = (refl, tt, tt)
merge-IsMerged unused (split a b) hl hr = (refl, tt, hr)
merge-IsMerged (used s) r hl hr = (refl, tt, hr)
merge-IsMerged (split a b) r hl hr = (refl, hl, hr)

abbrev MergedAs : Option Block → Type 0
MergedAs none = Unit
MergedAs (some t) = IsMerged t

release-MergedAs : (d o : ℕ) (t : Block) → IsMerged t → MergedAs (release d o t)
unfolding release
release-MergedAs d o unused m = tt
release-MergedAs d o (used s) m = elim (Bool-cases (o == 0)) [ inl e ↦ rw e tt | inr e ↦ rw e tt ]
release-MergedAs zero o (split l r) m = tt
release-MergedAs (suc d) o (split l r) m = elim (Bool-cases (ltb o (2 ^ d))) [
  | inl e ↦ rw e (lower (release d o l) (release-MergedAs d o l m.1))
  | inr e ↦ rw e (upper (release d (o - 2 ^ d) r) (release-MergedAs d (o - 2 ^ d) r m.2))
]
  where
    lower : (x : Option Block) → MergedAs x → MergedAs (in_lower r x)
    lower none p = tt
    lower (some l') p = merge-IsMerged l' r p m.2

    upper : (x : Option Block) → MergedAs x → MergedAs (in_upper l x)
    upper none p = tt
    upper (some r') p = merge-IsMerged l r' m.1 p

pub release-IsMerged :
    (d o : ℕ) (t : Block) {t' : Block} → release d o t ≡ some t' → IsMerged t → IsMerged t'
release-IsMerged d o t e m = subst MergedAs e (release-MergedAs d o t m)

release-tower : (k e d s : ℕ) → d ≡ k + e → release d 0 (tower k s) ≡ some unused
unfolding tower release merge
release-tower zero e d s h = ground arith
release-tower (suc k) e zero s h = absurd (omega arith)
release-tower (suc k) e (suc d) s h =
    let low : ltb 0 (2 ^ d) ≡ true = let p = two_pow_pos d in ground arith in
    rw (low, release-tower k e d s (omega arith)) refl

Places-release :
    {s k o : ℕ} {t t' : Block} (e d : ℕ)
    → d ≡ k + e
    → Places s k t o t'
    → IsMerged t
    → release d (o * 2 ^ e) t' ≡ some t
unfolding release
Places-release {s} e d h (free {k}) m =
    let none_before : 0 * 2 ^ e ≡ 0 = omega arith in rw none_before (release-tower k e d s h)
Places-release e zero h (left p) m = absurd (omega arith)
Places-release e (suc d) h (left {k} {o} {l} {r} p) m =
    let low : ltb (o * 2 ^ e) (2 ^ d) ≡ true =
      let q = offset_low k e d o (omega arith) (Places-lt p) in ground arith in
    rw (low, Places-release e d (omega arith) p m.1) (ap some m.0)
Places-release e zero h (right p q) m = absurd (omega arith)
Places-release e (suc d) h (right {k} {o} {o'} {l} {r} p q) m =
    let at = offset_high k e d o o' (omega arith) q in
    let high : ltb (o' * 2 ^ e) (2 ^ d) ≡ false = ground arith in
    let rest : o' * 2 ^ e - 2 ^ d ≡ o * 2 ^ e = omega arith in
    rw (high, rest, Places-release e d (omega arith) p m.2) (ap some m.0)

-- Releasing what was just allocated restores the tree.
pub release-place :
    (k e d s : ℕ) (t : Block) {o : ℕ} {t' : Block}
    → d ≡ k + e
    → place k s t ≡ some (o, t')
    → IsMerged t
    → release d (o * 2 ^ e) t' ≡ some t
release-place k e d s t h p m = Places-release e d h (place-Places k s t p) m
