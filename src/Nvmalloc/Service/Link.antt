-- ===== src/Nvmalloc/Service/Link.antt =====
-- A block in use that begins to wait: the links, the headers and the counts.
use zalloc.Base.{
  ℕ, ◌+◌, ◌*◌, ◌≤◌, ◌<◌, ◌≡◌, refl, ap, ◌∙◌, true, false, ◌⊎◌, inl, inr, List, [], ◌∷◌, ◌++◌, ◌==◌,
  if◌then◌else◌, arith, Bool-cases,
}
use zalloc.Nvmalloc.{base_size}
use zalloc.Nvmalloc.Header.{negate, crc_compute}
use zalloc.Nvmalloc.Free.{Nvm, put}
use zalloc.Nvmalloc.Marks.{is_clear}
use zalloc.Nvmalloc.Tiles.{
  Tile, live, held, total, total-append, Tiles, Tiles-append, Tiles-split, Tiles-same,
}
use zalloc.Nvmalloc.Block.{IsLaidOut}
use zalloc.Nvmalloc.Blocks.{
  blocks, blocks-append, times, times-append, waits, waits-append, waits-live, waits-held,
}
use zalloc.Nvmalloc.Service.{Chain, Chain-last}

-- A new last block of the list.
pub Chain-append :
    (next : ℕ → ℕ) (tail v u : ℕ) (rest : List ℕ)
    → Chain next tail v rest
    → ((x : ℕ) → times x (v ∷ rest) ≤ 1)
    → Chain (put next tail (base_size * u)) (base_size * u) v (rest ++ (u ∷ []))
unfolding times
Chain-append next tail v u [] end once =
    let here : (tail == base_size * v) ≡ true = ground (arith, end) in (rw here refl, refl)
Chain-append next tail v u (w ∷ rest) (link, chain) once =
    let (z, end, h) = Chain-last next tail w rest chain in
    let other : (tail == base_size * v) ≡ false = elim (Bool-cases (v == z)) [
      | inl same ↦ absurd (twice z same h (once z))
      | inr differs ↦ ground (arith, end)
    ] in
    (rw other link, Chain-append next tail w u rest chain (λ x. omega (arith, once x)))
  where
    twice :
        (z : ℕ)
        → (v == z) ≡ true
        → 0 < times z (w ∷ rest)
        → (if v == z then 1 else 0) + times z (w ∷ rest) ≤ 1
        → ⊥
    twice z same h le = omega (arith, h, rw same at le)

module _ (crc : ℕ → ℕ → ℕ) (st : Nvm) (before : List Tile) (n : ℕ) (after : List Tile)
    (laid : IsLaidOut crc st (before ++ (live n ∷ after))) where
  -- The header once the block waits.
  abbrev pub waiting_word : ℕ → ℕ
  waiting_word =
      put st.word (base_size * total before)
        (negate (crc_compute crc (base_size * total before) (base_size * n + 1)))

  apart :
      (x : ℕ)
      → (x < total before) ⊎ (total before < x)
      → waiting_word (base_size * x) ≡ st.word (base_size * x)
  apart x h =
      let other : (base_size * total before == base_size * x) ≡ false = ground arith in
      rw other refl

  own :
      waiting_word (base_size * total before)
      ≡ negate (crc_compute crc (base_size * total before) (base_size * n + 1))
  own =
      let same : (base_size * total before == base_size * total before) ≡ true = ground arith in
      rw same refl

  pub waiting-Tiles : Tiles crc (is_clear st.bitmap) waiting_word 0 (before ++ (held n ∷ after))
  waiting-Tiles =
      let (tb, (pos, clear, head, tr)) =
        Tiles-split crc (is_clear st.bitmap) st.word 0 before (live n ∷ after) laid.tiles in
      let from : 0 + total before ≡ total before = omega arith in
      let tb' =
        Tiles-same crc (is_clear st.bitmap) (is_clear st.bitmap) st.word waiting_word 0 before
          (λ x low high. refl) (λ x low high. apart x (inl (omega arith))) tb in
      let tr' =
        Tiles-same crc (is_clear st.bitmap) (is_clear st.bitmap) st.word waiting_word
          (0 + total before + n) after (λ x low high. refl)
          (λ x low high. apart x (inr (omega (arith, pos)))) tr in
      Tiles-append crc (is_clear st.bitmap) waiting_word 0 before (held n ∷ after) tb'
        (pos, clear, rw from own, tr')

  pub same_total : total (before ++ (held n ∷ after)) ≡ total (before ++ (live n ∷ after))
  unfolding total
  same_total =
      omega (arith, total-append before (held n ∷ after), total-append before (live n ∷ after))

  -- The block lies in the memory, below 2^32 bytes.
  pub inside : (0 < n) × (base_size * (total before + n) ≤ st.top)
  unfolding total
  inside =
      let (tb, (pos, clear, head, tr)) =
        Tiles-split crc (is_clear st.bitmap) st.word 0 before (live n ∷ after) laid.tiles in
      (pos, omega (arith, total-append before (live n ∷ after), laid.zone, laid.within))

  pub word_here :
      st.word (base_size * total before)
      ≡ crc_compute crc (base_size * total before) (base_size * n)
  word_here =
      let (tb, (pos, clear, head, tr)) =
        Tiles-split crc (is_clear st.bitmap) st.word 0 before (live n ∷ after) laid.tiles in
      let from : 0 + total before ≡ total before = omega arith in rw from at head

-- A block in use is no waiting one; a waiting one is in the list.
pub one_more :
    (before : List Tile) (n : ℕ) (after : List Tile) (queue : List ℕ) (x : ℕ)
    → times x queue
      ≡ waits x (blocks 0 before ++ ((total before, live n) ∷ blocks (total before + n) after))
    → times x (queue ++ (total before ∷ []))
      ≡ waits x (blocks 0 before ++ ((total before, held n) ∷ blocks (total before + n) after))
unfolding times
one_more before n after queue x same = omega (
  arith,
  same,
  times-append x queue (total before ∷ []),
  waits-append x (blocks 0 before) ((total before, live n) ∷ blocks (total before + n) after),
  waits-append x (blocks 0 before) ((total before, held n) ∷ blocks (total before + n) after),
  waits-live x (total before) n (blocks (total before + n) after),
  waits-held x (total before) n (blocks (total before + n) after),
)

pub blocks-live :
    (before : List Tile) (n : ℕ) (after : List Tile)
    → blocks 0 (before ++ (live n ∷ after))
      ≡ blocks 0 before ++ ((total before, live n) ∷ blocks (total before + n) after)
unfolding blocks
blocks-live before n after =
    let from : 0 + total before ≡ total before = omega arith in
    blocks-append 0 before (live n ∷ after)
    ∙ ap (λ p. blocks 0 before ++ blocks p (live n ∷ after)) from

pub blocks-held :
    (before : List Tile) (n : ℕ) (after : List Tile)
    → blocks 0 (before ++ (held n ∷ after))
      ≡ blocks 0 before ++ ((total before, held n) ∷ blocks (total before + n) after)
unfolding blocks
blocks-held before n after =
    let from : 0 + total before ≡ total before = omega arith in
    blocks-append 0 before (held n ∷ after)
    ∙ ap (λ p. blocks 0 before ++ blocks p (held n ∷ after)) from
