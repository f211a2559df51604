-- ===== src/Buddy/Inside.antt =====
-- Which indices lie in the subtree of a node.
use mathlib.Core.Path.{subst}
use zalloc.Base.{ℕ, ◌+◌, ◌*◌, ◌≤◌, ◌≡◌, refl, sym, ◌⊎◌, inl, inr, arith}

-- `x` is `i` or a descendant of it.
pub data Inside (i : ℕ) : ℕ → Type 0 where
  here : Inside i i
  left : {x y : ℕ} → Inside i x → y ≡ x * 2 + 1 → Inside i y
  right : {x y : ℕ} → Inside i x → y ≡ x * 2 + 2 → Inside i y

pub Inside-le : {i x : ℕ} → Inside i x → i ≤ x
Inside-le here = omega arith
Inside-le (left h e) = omega (arith, Inside-le h)
Inside-le (right h e) = omega (arith, Inside-le h)

pub Inside-trans : {i j x : ℕ} → Inside i j → Inside j x → Inside i x
Inside-trans h here = h
Inside-trans h (left g e) = left (Inside-trans h g) e
Inside-trans h (right g e) = right (Inside-trans h g) e

pub Inside-left : {i x : ℕ} → Inside (i * 2 + 1) x → Inside i x
Inside-left h = Inside-trans (left here refl) h

pub Inside-right : {i x : ℕ} → Inside (i * 2 + 2) x → Inside i x
Inside-right h = Inside-trans (right here refl) h

-- Two nodes with a common descendant: one lies below the other.
chain : {a b x y : ℕ} → Inside a x → Inside b y → x ≡ y → Inside a b ⊎ Inside b a
chain {b} here g e = inr (subst (Inside b) (sym e) g)
chain {a} h here e = inl (subst (Inside a) e h)
chain (left h p) (left g q) e = chain h g (omega arith)
chain (left h p) (right g q) e = absurd (omega arith)
chain (right h p) (left g q) e = absurd (omega arith)
chain (right h p) (right g q) e = chain h g (omega arith)

not-Inside_halves : (i : ℕ) {x y : ℕ} → Inside x y → x ≡ i * 2 + 1 → y ≡ i * 2 + 2 → ⊥
not-Inside_halves i here e f = absurd (omega arith)
not-Inside_halves i (left h p) e f = absurd (omega arith)
not-Inside_halves i (right h p) e f = absurd (omega (arith, Inside-le h))

-- The two subtrees below a node have no index in common.
pub Inside-apart : (i : ℕ) {x : ℕ} → Inside (i * 2 + 1) x → ¬ Inside (i * 2 + 2) x
Inside-apart i h g = elim (chain h g refl) [
  | inl p ↦ not-Inside_halves i p refl refl
  | inr p ↦ absurd (omega (arith, Inside-le p))
]
