-- ===== src/Api/Main/Loop.antt =====
-- The loop of `main` over `realloc`, on a file that was just mapped.
use mathlib.Core.Path.{subst}
use zalloc.Base.{
  ℕ, zero, suc, ◌+◌, ◌-◌, ◌*◌, ◌^◌, ◌≤◌, ◌<◌, ◌≡◌, refl, sym, ◌∙◌, false, List, [], ◌∷◌, none, some,
  Run, ok, ◌==◌, if◌then◌else◌, arith, Bool-cases, inl, inr, two_pow_mono, ==_true,
}
use zalloc.Buddy.Size.{page_size}
use zalloc.Buddy.Tree.{Block, unused, lookup, IsMerged}
use zalloc.Buddy.Tree.Largest.{largest}
use zalloc.Buddy.Repr.{IsBlock}
use zalloc.Buddy.Repr.Alone.{Alone, Alone-at, Alone-other, Alone-largest}
use zalloc.Mapped.{World}
use zalloc.Api.Main.Sizes.{pages_of, fits_pages}
use zalloc.Mapped.Service.{Ready, buddy_xmalloc-Granted}
use zalloc.Api.{Process, realloc}
use zalloc.Api.Moved.{realloc-Moved, positive}
use zalloc.Api.Main.{Line, attempt, max_pow, realloc_loop}

-- The process holds one allocation, of `size` bytes on `2 ^ e` pages, and `mem` points to it.
pub record Holding (base size e mem : ℕ) (p : Process) : Type 0 where
  pub tree : Block
  pub ready : Ready p.heap tree
  pub kept : p.heap.memblock ≡ base
  pub merged : IsMerged tree
  pub page : ℕ
  pub alone : Alone 19 size e page tree
  pub pointer : mem ≡ base + page_size * page

-- What a call of `realloc` returns.
record Next (base size e : ℕ) (r : Run (ℕ × Process)) : Type 0 where
  mem : ℕ
  after : Process
  result : r ≡ ok (mem, after)
  given : (mem == 0) ≡ false
  holding : Holding base size e mem after

moved-Alone :
    (size e s h o o' : ℕ) (t tree : Block)
    → Alone 19 s h o t
    → lookup 19 o' t ≡ none
    → ((q : ℕ)
        → lookup 19 q tree
          ≡ (if q == o then none else if q == o' then some (size, e) else lookup 19 q t))
    → Alone 19 size e o' tree
moved-Alone size e s h o o' t tree alone fresh map = record {
  map = λ q. elim (Bool-cases (q == o)) [
    | inl old ↦ elim (Bool-cases (q == o')) [
      | inl new ↦
          let at : lookup 19 q t ≡ some (s, h) = alone.map q ∙ rw old refl in
          let same = ==_true q o' new in absurd (cc (at, same, fresh))
      | inr apart ↦ map q ∙ rw (old, apart) refl
    ]
    | inr away ↦ map q ∙ rw (away, Alone-other 19 s h o q t alone away) refl
  ];
}

-- The lines of `n` rounds that get a block, from round `i` on.
pub attempts : (i n : ℕ) → List Line
attempts i zero = []
attempts i (suc n) = attempt (2 ^ i) ∷ attempts (i + 1) n

-- What the loop returns: its lines, and the block that it holds in the end.
pub record Ended (base size e : ℕ) (lines : List Line) (r : Run (List Line × ℕ × Process))
    : Type 0 where
  pub mem : ℕ
  pub after : Process
  pub result : r ≡ ok (lines, mem, after)
  pub holding : Holding base size e mem after

module _ (w : World) (fuel base : ℕ) (enough : 3 * 2 ^ 19 ≤ fuel) where
  fuel_at : (i : ℕ) → 3 * 2 ^ (19 - (i - 12)) ≤ fuel
  fuel_at i = omega (arith, two_pow_mono (19 - (i - 12)) 19 (omega arith))

  -- The first round, whose pointer is NULL.
  first_Next :
      (p : Process) (i : ℕ)
      → Ready p.heap unused
      → p.heap.memblock ≡ base
      → i < 26
      → Next base (2 ^ i) (i - 12) (realloc false w fuel p 0 (2 ^ i))
  unfolding realloc lookup largest
  first_Next p i ready at low =
      let (o, t', got) =
        buddy_xmalloc-Granted false w p.heap unused ready (2 ^ i) (19 - (i - 12)) (i - 12) fuel
          (pages_of i low) (omega arith) (fuel_at i) (two_pow_mono (i - 12) 19 (omega arith)) in
      let pos = positive p.heap.memblock (page_size * o) ready.base in
      record {
        mem = p.heap.memblock + page_size * o;
        after = record p { heap = got.after };
        result = rw (got.result, pos) refl;
        given = pos;
        holding = record {
          tree = t';
          ready = got.still;
          kept = got.kept ∙ at;
          merged = got.merged tt;
          page = o;
          alone = record { map = got.map };
          pointer = rw at refl;
        };
      }

  later_Next :
      (p : Process) (mem s h i : ℕ)
      → Holding base s h mem p
      → h ≤ 18
      → s ≤ page_size * 2 ^ h
      → i < 26
      → Next base (2 ^ i) (i - 12) (realloc false w fuel p mem (2 ^ i))
  later_Next p mem s h i held small within low =
      let t = held.tree in
      let ready = held.ready in
      let room : 2 ^ (i - 12) ≤ largest 19 t = omega (
        arith,
        Alone-largest ready.alloc.tree 0 18 s h held.page t
            (subst (λ d. IsBlock ready.alloc.tree 0 d t) ready.height ready.valid.block) held.merged
            held.alone small,
        two_pow_mono (i - 12) 18 (omega arith),
      ) in
      let (o', moved) =
        realloc-Moved false w fuel p t ready (2 ^ i) (19 - (i - 12)) (i - 12) s h held.page
          (pages_of i low) (omega arith) (fuel_at i) room (Alone-at 19 s h held.page t held.alone)
          within (fits_pages i low) in
      let at : p.heap.memblock + page_size * held.page ≡ mem = rw held.kept (sym held.pointer) in
      record {
        mem = p.heap.memblock + page_size * o';
        after = moved.after;
        result =
            subst
              (λ m.
                realloc false w fuel p m (2 ^ i)
                ≡ ok (p.heap.memblock + page_size * o', moved.after))
              at moved.result;
        given = positive p.heap.memblock (page_size * o') ready.base;
        holding = record {
          tree = moved.tree;
          ready = moved.still;
          kept = moved.kept ∙ held.kept;
          merged = moved.merged held.merged;
          page = o';
          alone =
              moved-Alone (2 ^ i) (i - 12) s h held.page o' t moved.tree held.alone moved.fresh
                moved.map;
          pointer = rw held.kept refl;
        };
      }

  loop_from :
      (n i : ℕ) (p : Process) (mem : ℕ)
      → Next base (2 ^ i) (i - 12) (realloc false w fuel p mem (2 ^ i))
      → i + n ≡ 25
      → Ended base (2 ^ 25) 13 (attempts i (suc n)) (realloc_loop w fuel p mem i (suc n))
  unfolding realloc_loop attempts
  loop_from zero i p mem next at =
      let last : i ≡ 25 = omega arith in
      record {
        mem = next.mem;
        after = next.after;
        result = rw (next.result, next.given) refl;
        holding = subst (λ k. Holding base (2 ^ k) (k - 12) next.mem next.after) last next.holding;
      }
  loop_from (suc n) i p mem next at =
      let again =
        later_Next next.after next.mem (2 ^ i) (i - 12) (i + 1) next.holding (omega arith)
          (fits_pages i (omega arith)) (omega arith) in
      let rest = loop_from n (i + 1) next.after next.mem again (omega arith) in
      record {
        mem = rest.mem;
        after = rest.after;
        result = rw (next.result, next.given, rest.result) refl;
        holding = rest.holding;
      }

  pub realloc_loop-Ended :
      (p : Process)
      → Ready p.heap unused
      → p.heap.memblock ≡ base
      → Ended base (2 ^ 25) 13 (attempts 0 max_pow) (realloc_loop w fuel p 0 0 max_pow)
  realloc_loop-Ended p ready at = loop_from 25 0 p 0 (first_Next p 0 ready at (omega arith)) refl
