-- ===== src/Api/Moved.antt =====
-- `realloc` copies what fits of the old block, and frees it.
use mathlib.Core.Path.{subst}
use zalloc.Base.{
  ℕ, zero, suc, ◌+◌, ◌-◌, ◌*◌, ◌^◌, ◌≤◌, ◌<◌, ◌≡◌, refl, ap, ◌∙◌, Bool, true, false, ◌⊎◌, none,
  some, Option-cases, Run, ok, arith, ◌==◌, if◌then◌else◌, inl, inr, two_pow_pos, Bool-cases,
  ==_true,
}
use zalloc.Buddy.Size.{page_size, block_pages}
use zalloc.Buddy.Tree.{Block, release, lookup, IsMerged}
use zalloc.Buddy.Tree.Merged.{release-IsMerged}
use zalloc.Buddy.Tree.Largest.{largest}
use zalloc.Buddy.Tree.Lookup.{lookup-le, lookup-release_map}
use zalloc.Buddy.Free.Whole.{lookup-release}
use zalloc.Mapped.{World}
use zalloc.Mapped.Service.{Ready, buddy_xmalloc-Granted, buddy_xfree-release, buddy_get_size-lookup}
use zalloc.Api.{Process, in_map, is_within, memcpy, min, move, realloc}

-- The bytes after a copy of `n` bytes.
pub record Copied (dst src n : ℕ) (old new : ℕ → ℕ) : Type 0 where
  pub inside : (i : ℕ) → i < n → new (dst + i) ≡ old (src + i)
  pub outside : (a : ℕ) → (a < dst) ⊎ (dst + n ≤ a) → new a ≡ old a

pub record Copies (dst src n : ℕ) (old : ℕ → ℕ) (r : Run (ℕ → ℕ)) : Type 0 where
  pub bytes : ℕ → ℕ
  pub result : r ≡ ok bytes
  pub copied : Copied dst src n old bytes

pub is_within-add : (dst n i : ℕ) → i < n → is_within dst n (dst + i) ≡ true
is_within-add dst n i h = ground arith

pub is_within-outside : (dst n a : ℕ) → (a < dst) ⊎ (dst + n ≤ a) → is_within dst n a ≡ false
is_within-outside dst n a (inl h) = ground arith
is_within-outside dst n a (inr h) = ground arith

pub in_map-inside : (base p n : ℕ) → base ≤ p → p + n ≤ base + 2 ^ 31 → in_map base p n ≡ true
in_map-inside base p n low high = ground arith

sub_add : (src dst i : ℕ) → src + (dst + i - dst) ≡ src + i
sub_add src dst i = omega arith

pub memcpy-Copies :
    (base dst src n : ℕ) (old : ℕ → ℕ)
    → in_map base dst n ≡ true
    → in_map base src n ≡ true
    → Copies dst src n old (memcpy base dst src n old)
unfolding memcpy
memcpy-Copies base dst src zero old hd hs = record {
  bytes = old;
  result = refl;
  copied = record { inside = λ i h. absurd (omega arith); outside = λ a h. refl };
}
memcpy-Copies base dst src (suc n) old hd hs =
    let some_bytes : (suc n == 0) ≡ false = ground arith in
    record {
      bytes = λ a. if is_within dst (suc n) a then old (src + (a - dst)) else old a;
      result = rw (some_bytes, hd, hs) refl;
      copied = record {
        inside = λ i h. rw (is_within-add dst (suc n) i h) (ap old (sub_add src dst i));
        outside = λ a h. rw (is_within-outside dst (suc n) a h) refl;
      };
    }

min-le : (x y : ℕ) → (min x y ≤ x) × (min x y ≤ y)
min-le x y = ground arith

pub positive : (b x : ℕ) → 0 < b → (b + x == 0) ≡ false
positive b x h = ground arith

-- What `move` leaves behind.
pub record Left (q : Process) (t tree : Block) (dst src n : ℕ) (r : Run (ℕ × Process))
    : Type 0 where
  pub after : Process
  pub result : r ≡ ok (dst, after)
  pub still : Ready after.heap tree
  pub kept : after.heap.memblock ≡ q.heap.memblock
  pub copied : Copied dst src n q.memory after.memory

pub in_map-block :
    (base o n e : ℕ)
    → o + 2 ^ e ≤ 2 ^ 19
    → n ≤ page_size * 2 ^ e
    → in_map base (base + page_size * o) n ≡ true
in_map-block base o n e inside small =
    in_map-inside base (base + page_size * o) n (omega arith) (omega arith)

pub release-some :
    (o : ℕ) (t : Block) {s h : ℕ}
    → lookup 19 o t ≡ some (s, h)
    → (t' : Block) × (release 19 o t ≡ some t')
release-some o t found = elim (Option-cases (release 19 o t)) [
  | inl gone ↦ absurd (cc (lookup-release 19 o t gone))
  | inr kept ↦ kept
]

module _ (lib : Bool) (w : World) (fuel : ℕ) where
  move-Left :
      (q : Process) (t tree : Block) (ready : Ready q.heap t) (o o' size s h e : ℕ)
      → lookup 19 o t ≡ some (s, h)
      → release 19 o t ≡ some tree
      → o' + 2 ^ e ≤ 2 ^ 19
      → s ≤ page_size * 2 ^ h
      → size ≤ page_size * 2 ^ e
      → Left q t tree
          (q.heap.memblock + page_size * o')
          (q.heap.memblock + page_size * o)
          (min size s)
          (move lib w fuel q
            (q.heap.memblock + page_size * o')
            (q.heap.memblock + page_size * o)
            size)
  unfolding move
  move-Left q t tree ready o o' size s h e found freed inside old_fits fits =
      let own : o + 2 ^ h ≤ 2 ^ 19 = lookup-le 19 o t {s = s} {h = h} found in
      let low : o < 2 ^ 19 = omega (arith, two_pow_pos h) in
      let least = min-le size s in
      let copy =
        memcpy-Copies q.heap.memblock (q.heap.memblock + page_size * o')
          (q.heap.memblock + page_size * o) (min size s) q.memory
          (in_map-block q.heap.memblock o' (min size s) e inside (omega (arith, least)))
          (in_map-block q.heap.memblock o (min size s) h own (omega (arith, least))) in
      let done = buddy_xfree-release lib w q.heap t ready o low freed in
      record {
        after = record { heap = done.after; memory = copy.bytes };
        result =
            rw (buddy_get_size-lookup lib w q.heap t ready o low found, copy.result, done.result)
              refl;
        still = done.still;
        kept = done.kept;
        copied = copy.copied;
      }

module _ (lib : Bool) (w : World) (fuel : ℕ) (p : Process) (t : Block)
    (ready : Ready p.heap t) where
  abbrev pub base : ℕ
  base = p.heap.memblock

  -- The outcome of a move of the allocation `s` bytes at page `o` to page `o'`.
  pub record Moved (size e s o o' : ℕ) (r : Run (ℕ × Process)) : Type 0 where
    pub after : Process
    pub result : r ≡ ok (base + page_size * o', after)
    pub tree : Block
    pub still : Ready after.heap tree
    pub kept : after.heap.memblock ≡ base
    pub inside : o' + 2 ^ e ≤ 2 ^ 19
    pub fresh : lookup 19 o' t ≡ none
    pub merged : IsMerged t → IsMerged tree
    pub copied :
        Copied (base + page_size * o') (base + page_size * o) (min size s) p.memory after.memory
    pub map :
        (q : ℕ)
        → lookup 19 q tree
          ≡ (if q == o then none else if q == o' then some (size, e) else lookup 19 q t)

  map_after :
      (size e o o' : ℕ) (t' tree : Block)
      → ((q : ℕ) → lookup 19 q t' ≡ (if q == o' then some (size, e) else lookup 19 q t))
      → release 19 o t' ≡ some tree
      → (q : ℕ)
      → lookup 19 q tree
        ≡ (if q == o then none else if q == o' then some (size, e) else lookup 19 q t)
  map_after size e o o' t' tree before freed q =
      lookup-release_map 19 o q t' freed ∙ rw (before q) refl

  kept_lookup :
      (size e o o' s h : ℕ) (t' : Block)
      → ((q : ℕ) → lookup 19 q t' ≡ (if q == o' then some (size, e) else lookup 19 q t))
      → lookup 19 o' t ≡ none
      → lookup 19 o t ≡ some (s, h)
      → lookup 19 o t' ≡ some (s, h)
  kept_lookup size e o o' s h t' before fresh found = elim (Bool-cases (o == o')) [
    | inl same ↦ absurd (cc (fresh, found, ==_true o o' same))
    | inr apart ↦ before o ∙ rw apart found
  ]

  -- Where the tree has a free block of `2 ^ e` pages or more, the request fits `2 ^ e` pages, and an
  -- allocation that fits its pages begins at page `o`, `realloc` with enough fuel copies to a new
  -- allocation as many bytes as both hold, changes no other byte, and frees the old allocation.
  pub realloc-Moved :
      (size k e s h o : ℕ)
      → block_pages size ≡ 2 ^ e
      → 19 ≡ k + e
      → 3 * 2 ^ k ≤ fuel
      → 2 ^ e ≤ largest 19 t
      → lookup 19 o t ≡ some (s, h)
      → s ≤ page_size * 2 ^ h
      → size ≤ page_size * 2 ^ e
      → (o' : ℕ) × Moved size e s o o' (realloc lib w fuel p (base + page_size * o) size)
  unfolding realloc
  realloc-Moved size k e s h o pages height enough room found old_fits fits =
      let (o', t', got) =
        buddy_xmalloc-Granted lib w p.heap t ready size k e fuel pages height enough room in
      let found' = kept_lookup size e o o' s h t' got.map got.fresh found in
      let (tree, freed) = release-some o t' found' in
      let q : Process = record p { heap = got.after } in
      let left =
        subst
          (λ b.
            Left q t' tree (b + page_size * o') (b + page_size * o) (min size s)
              (move lib w fuel q (b + page_size * o') (b + page_size * o) size))
          got.kept
          (move-Left lib w fuel q t' tree got.still o o' size s h e found' freed got.inside old_fits
            fits) in
      (
        o',
        record {
          after = left.after;
          result =
              rw
                (
                  got.result,
                  positive base (page_size * o') ready.base,
                  positive base (page_size * o) ready.base,
                )
                left.result;
          tree = tree;
          still = left.still;
          kept = left.kept ∙ got.kept;
          inside = got.inside;
          fresh = got.fresh;
          merged = λ m. release-IsMerged 19 o t' freed (got.merged m);
          copied = left.copied;
          map = map_after size e o o' t' tree got.map freed;
        },
      )
