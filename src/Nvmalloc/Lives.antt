-- ===== src/Nvmalloc/Lives.antt =====
-- How often a block in use is among the blocks of a row, and where two of them lie.
use zalloc.Base.{
  ℕ, ◌+◌, ◌≤◌, ◌<◌, ◌≡◌, refl, sym, ap, ◌∙◌, Bool, true, false, ◌&&◌, ◌⊎◌, inl, inr, List, [], ◌∷◌,
  ◌++◌, ◌==◌, if◌then◌else◌, arith, Bool-cases, ==_true,
}
use zalloc.Nvmalloc.Tiles.{Tile, live, held, vacant, units, total, Tiles}
use zalloc.Nvmalloc.Blocks.{blocks, Gains}

-- The blocks of `k` units at unit `x` that are in use.
unfoldable pub lives : (x k : ℕ) → List (ℕ × Tile) → ℕ
lives x k [] = 0
lives x k ((u, live n) ∷ l) = (if u == x && n == k then 1 else 0) + lives x k l
lives x k ((u, held n) ∷ l) = lives x k l
lives x k ((u, vacant n) ∷ l) = lives x k l

-- How often a client has them.
unfoldable pub copies : (x k : ℕ) → List (ℕ × ℕ) → ℕ
copies x k [] = 0
copies x k ((u, n) ∷ l) = (if u == x && n == k then 1 else 0) + copies x k l

pub lives-append :
    (x k : ℕ) (a b : List (ℕ × Tile)) → lives x k (a ++ b) ≡ lives x k a + lives x k b
unfolding lives
lives-append x k [] b = zero_add (lives x k b)
  where
    zero_add : (n : ℕ) → n ≡ 0 + n
    zero_add n = omega arith
lives-append x k ((u, live n) ∷ a) b = omega (arith, lives-append x k a b)
lives-append x k ((u, held n) ∷ a) b = lives-append x k a b
lives-append x k ((u, vacant n) ∷ a) b = lives-append x k a b

pub copies-append :
    (x k : ℕ) (a b : List (ℕ × ℕ)) → copies x k (a ++ b) ≡ copies x k a + copies x k b
unfolding copies
copies-append x k [] b = zero_add (copies x k b)
  where
    zero_add : (n : ℕ) → n ≡ 0 + n
    zero_add n = omega arith
copies-append x k ((u, n) ∷ a) b = omega (arith, copies-append x k a b)

pub lives-Gains_live :
    (x k u n : ℕ) (old new : List (ℕ × Tile))
    → Gains old new (u, live n)
    → lives x k new ≡ (if u == x && n == k then 1 else 0) + lives x k old
unfolding lives
lives-Gains_live x k u n old new g = omega (
  arith,
  ap (lives x k) g.within,
  ap (lives x k) g.without,
  lives-append x k g.front ((u, live n) ∷ g.back),
  lives-append x k g.front g.back,
)

pub lives-Gains_held :
    (x k u n : ℕ) (old new : List (ℕ × Tile))
    → Gains old new (u, held n)
    → lives x k new ≡ lives x k old
unfolding lives
lives-Gains_held x k u n old new g = omega (
  arith,
  ap (lives x k) g.within,
  ap (lives x k) g.without,
  lives-append x k g.front ((u, held n) ∷ g.back),
  lives-append x k g.front g.back,
)

-- The block in use at a unit.
pub record LiveAt (p x k : ℕ) (l : List Tile) : Type 0 where
  pub before : List Tile
  pub after : List Tile
  pub whole : l ≡ before ++ (live k ∷ after)
  pub at : p + total before ≡ x

behind : (p x k : ℕ) (t : Tile) (l : List Tile) → LiveAt (p + units t) x k l → LiveAt p x k (t ∷ l)
unfolding total
behind p x k t l h = record {
  before = t ∷ h.before;
  after = h.after;
  whole = ap (◌∷◌ t) h.whole;
  at = omega (arith, h.at);
}

both_true : (a b : Bool) → (a && b) ≡ true → (a ≡ true) × (b ≡ true)
both_true true b h = (refl, h)
both_true false b h = absurd (cc h)

drop_false : (b : Bool) (t : ℕ) → b ≡ false → 0 < (if b then 1 else 0) + t → 0 < t
drop_false b t e h = omega (arith, rw e at h)

pub lives-LiveAt : (x k p : ℕ) (l : List Tile) → 0 < lives x k (blocks p l) → LiveAt p x k l
unfolding lives blocks total
lives-LiveAt x k p [] h = absurd (omega arith)
lives-LiveAt x k p (held n ∷ l) h = behind p x k (held n) l (lives-LiveAt x k (p + n) l h)
lives-LiveAt x k p (vacant n ∷ l) h = behind p x k (vacant n) l (lives-LiveAt x k (p + n) l h)
lives-LiveAt x k p (live n ∷ l) h = elim (Bool-cases (p == x && n == k)) [
  | inl here ↦
      let (at, size) = both_true (p == x) (n == k) here in
      record {
        before = [];
        after = l;
        whole = ap (λ m. live m ∷ l) (==_true n k size);
        at = omega (arith, ==_true p x at);
      }
  | inr other ↦ behind p x k (live n) l (
      lives-LiveAt x k (p + n) l
        (drop_false (p == x && n == k) (lives x k (blocks (p + n) l)) other h))
]

module _ (crc : ℕ → ℕ → ℕ) (bits : ℕ → Bool) (word : ℕ → ℕ) where
  -- A block lies within the row.
  pub lives-within :
      (x k p : ℕ) (l : List Tile)
      → Tiles crc bits word p l
      → 0 < lives x k (blocks p l)
      → (p ≤ x) × (0 < k) × (x + k ≤ p + total l)
  unfolding lives blocks total
  lives-within x k p [] t h = absurd (omega arith)
  lives-within x k p (held n ∷ l) (pos, clear, head, rest) h =
      let (low, some_units, high) = lives-within x k (p + n) l rest h in
      (omega arith, some_units, omega arith)
  lives-within x k p (vacant n ∷ l) (pos, clear, head, rest) h =
      let (low, some_units, high) = lives-within x k (p + n) l rest h in
      (omega arith, some_units, omega arith)
  lives-within x k p (live n ∷ l) (pos, clear, head, rest) h =
      elim (Bool-cases (p == x && n == k)) [
        | inl here ↦
            let (at, size) = both_true (p == x) (n == k) here in
            let e = ==_true p x at in
            let f = ==_true n k size in
            (omega (arith, e), omega (arith, pos, f), omega (arith, e, f))
        | inr other ↦
            let (low, some_units, high) =
              lives-within x k (p + n) l rest
                (drop_false (p == x && n == k) (lives x k (blocks (p + n) l)) other h) in
            (omega arith, some_units, omega arith)
      ]

  -- Two blocks are one block or lie apart.
  pub lives_apart :
      (x k y m p : ℕ) (l : List Tile)
      → Tiles crc bits word p l
      → 0 < lives x k (blocks p l)
      → 0 < lives y m (blocks p l)
      → ((x ≡ y) × (k ≡ m)) ⊎ ((x + k ≤ y) ⊎ (y + m ≤ x))
  unfolding lives blocks
  lives_apart x k y m p [] t h h' = absurd (omega arith)
  lives_apart x k y m p (held n ∷ l) (pos, clear, head, rest) h h' =
      lives_apart x k y m (p + n) l rest h h'
  lives_apart x k y m p (vacant n ∷ l) (pos, clear, head, rest) h h' =
      lives_apart x k y m (p + n) l rest h h'
  lives_apart x k y m p (live n ∷ l) (pos, clear, head, rest) h h' =
      let later = drop_false (p == x && n == k) (lives x k (blocks (p + n) l)) in
      let later' = drop_false (p == y && n == m) (lives y m (blocks (p + n) l)) in
      elim (Bool-cases (p == x && n == k)) [
        | inl here ↦
            let (at, size) = both_true (p == x) (n == k) here in
            let e = ==_true p x at in
            let f = ==_true n k size in
            elim (Bool-cases (p == y && n == m)) [
              | inl here' ↦
                  let (at', size') = both_true (p == y) (n == m) here' in
                  inl (sym e ∙ ==_true p y at', sym f ∙ ==_true n m size')
              | inr other ↦
                  let low = (lives-within y m (p + n) l rest (later' other h')).0 in
                  inr (inl (omega (arith, e, f, low)))
            ]
        | inr other ↦ elim (Bool-cases (p == y && n == m)) [
          | inl here' ↦
              let (at', size') = both_true (p == y) (n == m) here' in
              let low = (lives-within x k (p + n) l rest (later other h)).0 in
              inr (inr (omega (arith, ==_true p y at', ==_true n m size', low)))
          | inr other' ↦ lives_apart x k y m (p + n) l rest (later other h) (later' other' h')
        ]
      ]

  -- Each counts once.
  pub lives-le : (x k p : ℕ) (l : List Tile) → Tiles crc bits word p l → lives x k (blocks p l) ≤ 1
  unfolding lives blocks
  lives-le x k p [] t = omega arith
  lives-le x k p (held n ∷ l) (pos, clear, head, rest) = lives-le x k (p + n) l rest
  lives-le x k p (vacant n ∷ l) (pos, clear, head, rest) = lives-le x k (p + n) l rest
  lives-le x k p (live n ∷ l) (pos, clear, head, rest) = elim (Bool-cases (p == x && n == k)) [
    | inr other ↦ rw other (omega (arith, lives-le x k (p + n) l rest))
    | inl here ↦ elim (Bool-cases (lives x k (blocks (p + n) l) == 0)) [
      | inl none_later ↦
          rw (here, ==_true (lives x k (blocks (p + n) l)) 0 none_later) (omega arith)
      | inr some_later ↦
          let low = (lives-within x k (p + n) l rest (ground arith)).0 in
          let e = ==_true p x (both_true (p == x) (n == k) here).0 in
          absurd (omega (arith, e, low, pos))
    ]
  ]
