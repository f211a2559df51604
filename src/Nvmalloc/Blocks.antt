-- ===== src/Nvmalloc/Blocks.antt =====
-- The abstract view of inc/nvmalloc/nvmalloc.c: the blocks in use and those that wait, each with its
-- unit, without the free ones; and the list of waiting blocks.
use zalloc.Base.{
  ℕ, ◌+◌, ◌≤◌, ◌<◌, ◌≡◌, refl, ap, ◌∙◌, Bool, false, inl, inr, List, [], ◌∷◌, ◌++◌, ◌==◌,
  if◌then◌else◌, arith, Bool-cases, ==_true,
}
use zalloc.Nvmalloc.Tiles.{Tile, live, held, vacant, units, total, Tiles}
use zalloc.Nvmalloc.Tiles.Edges.{AllVacant, more}

unfoldable pub blocks : ℕ → List Tile → List (ℕ × Tile)
blocks p [] = []
blocks p (live n ∷ l) = (p, live n) ∷ blocks (p + n) l
blocks p (held n ∷ l) = (p, held n) ∷ blocks (p + n) l
blocks p (vacant n ∷ l) = blocks (p + n) l

-- The second list has one block more.
pub record Gains (a b : List (ℕ × Tile)) (x : ℕ × Tile) : Type 0 where
  pub front : List (ℕ × Tile)
  pub back : List (ℕ × Tile)
  pub without : a ≡ front ++ back
  pub within : b ≡ front ++ (x ∷ back)

pub blocks-append :
    (p : ℕ) (a b : List Tile) → blocks p (a ++ b) ≡ blocks p a ++ blocks (p + total a) b
unfolding blocks total
blocks-append p [] b = let same : p ≡ p + 0 = omega arith in ap (λ x. blocks x b) same
blocks-append p (live n ∷ a) b =
    let same : p + n + total a ≡ p + (n + total a) = omega arith in
    ap (◌∷◌ (p, live n)) (blocks-append (p + n) a b ∙ ap (λ x. blocks (p + n) a ++ blocks x b) same)
blocks-append p (held n ∷ a) b =
    let same : p + n + total a ≡ p + (n + total a) = omega arith in
    ap (◌∷◌ (p, held n)) (blocks-append (p + n) a b ∙ ap (λ x. blocks (p + n) a ++ blocks x b) same)
blocks-append p (vacant n ∷ a) b =
    let same : p + n + total a ≡ p + (n + total a) = omega arith in
    blocks-append (p + n) a b ∙ ap (λ x. blocks (p + n) a ++ blocks x b) same

pub blocks-AllVacant : (p : ℕ) (a : List Tile) → AllVacant a → blocks p a ≡ []
unfolding blocks
blocks-AllVacant p [] v = refl
blocks-AllVacant p (live n ∷ a) v = elim v [ ]
blocks-AllVacant p (held n ∷ a) v = elim v [ ]
blocks-AllVacant p (vacant n ∷ a) (more v) = blocks-AllVacant (p + n) a v

-- Free blocks in between do not count.
pub blocks-skip :
    (p : ℕ) (a b : List Tile) → AllVacant a → blocks p (a ++ b) ≡ blocks (p + total a) b
blocks-skip p a b v =
    blocks-append p a b ∙ ap (λ x. x ++ blocks (p + total a) b) (blocks-AllVacant p a v)

-- How often a unit is in a list, and how often a waiting block begins there.
unfoldable pub times : ℕ → List ℕ → ℕ
times x [] = 0
times x (u ∷ l) = (if u == x then 1 else 0) + times x l

unfoldable pub waits : ℕ → List (ℕ × Tile) → ℕ
waits x [] = 0
waits x ((u, live n) ∷ l) = waits x l
waits x ((u, held n) ∷ l) = (if u == x then 1 else 0) + waits x l
waits x ((u, vacant n) ∷ l) = waits x l

pub waits-held :
    (x u n : ℕ) (l : List (ℕ × Tile))
    → waits x ((u, held n) ∷ l) ≡ (if u == x then 1 else 0) + waits x l
unfolding waits
waits-held x u n l = refl

pub waits-live : (x u n : ℕ) (l : List (ℕ × Tile)) → waits x ((u, live n) ∷ l) ≡ waits x l
unfolding waits
waits-live x u n l = refl

pub times-append : (x : ℕ) (a b : List ℕ) → times x (a ++ b) ≡ times x a + times x b
unfolding times
times-append x [] b = zero_add (times x b)
  where
    zero_add : (n : ℕ) → n ≡ 0 + n
    zero_add n = omega arith
times-append x (u ∷ a) b = omega (arith, times-append x a b)

pub waits-append : (x : ℕ) (a b : List (ℕ × Tile)) → waits x (a ++ b) ≡ waits x a + waits x b
unfolding waits
waits-append x [] b = zero_add (waits x b)
  where
    zero_add : (n : ℕ) → n ≡ 0 + n
    zero_add n = omega arith
waits-append x ((u, live n) ∷ a) b = waits-append x a b
waits-append x ((u, held n) ∷ a) b = omega (arith, waits-append x a b)
waits-append x ((u, vacant n) ∷ a) b = waits-append x a b

module _ (crc : ℕ → ℕ → ℕ) (bits : ℕ → Bool) (word : ℕ → ℕ) where
  -- No block begins before the row.
  waits-early :
      (x p : ℕ) (l : List Tile) → Tiles crc bits word p l → x < p → waits x (blocks p l) ≡ 0
  unfolding waits blocks
  waits-early x p [] t h = refl
  waits-early x p (live n ∷ l) (pos, clear, head, rest) h =
      waits-early x (p + n) l rest (omega arith)
  waits-early x p (held n ∷ l) (pos, clear, head, rest) h =
      let apart : (p == x) ≡ false = ground arith in
      rw apart (omega (arith, waits-early x (p + n) l rest (omega arith)))
  waits-early x p (vacant n ∷ l) (pos, clear, head, rest) h =
      waits-early x (p + n) l rest (omega arith)

  -- Each waiting block counts once.
  pub waits-le : (x p : ℕ) (l : List Tile) → Tiles crc bits word p l → waits x (blocks p l) ≤ 1
  unfolding waits blocks
  waits-le x p [] t = omega arith
  waits-le x p (live n ∷ l) (pos, clear, head, rest) = waits-le x (p + n) l rest
  waits-le x p (held n ∷ l) (pos, clear, head, rest) = elim (Bool-cases (p == x)) [
    | inl here ↦
        rw here (omega (arith, waits-early x (p + n) l rest (omega (arith, pos, ==_true p x here))))
    | inr other ↦ rw other (omega (arith, waits-le x (p + n) l rest))
  ]
  waits-le x p (vacant n ∷ l) (pos, clear, head, rest) = waits-le x (p + n) l rest

-- The waiting block at a unit.
pub record HeldAt (p x : ℕ) (l : List Tile) : Type 0 where
  pub before : List Tile
  pub size : ℕ
  pub after : List Tile
  pub whole : l ≡ before ++ (held size ∷ after)
  pub at : p + total before ≡ x

behind : (p x : ℕ) (t : Tile) (l : List Tile) → HeldAt (p + units t) x l → HeldAt p x (t ∷ l)
unfolding total
behind p x t l h = record {
  before = t ∷ h.before;
  size = h.size;
  after = h.after;
  whole = ap (◌∷◌ t) h.whole;
  at = omega (arith, h.at);
}

pub waits-HeldAt : (x p : ℕ) (l : List Tile) → 0 < waits x (blocks p l) → HeldAt p x l
unfolding waits blocks total
waits-HeldAt x p [] h = absurd (omega arith)
waits-HeldAt x p (live n ∷ l) h = behind p x (live n) l (waits-HeldAt x (p + n) l h)
waits-HeldAt x p (vacant n ∷ l) h = behind p x (vacant n) l (waits-HeldAt x (p + n) l h)
waits-HeldAt x p (held n ∷ l) h = elim (Bool-cases (p == x)) [
  | inl here ↦ record {
    before = [];
    size = n;
    after = l;
    whole = refl;
    at = omega (arith, ==_true p x here);
  }
  | inr other ↦ behind p x (held n) l (waits-HeldAt x (p + n) l (rest (p == x) other h))
]
  where
    rest :
        (b : Bool)
        → b ≡ false
        → 0 < (if b then 1 else 0) + waits x (blocks (p + n) l)
        → 0 < waits x (blocks (p + n) l)
    rest b e h = omega (arith, rw e at h)
