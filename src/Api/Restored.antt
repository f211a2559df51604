-- ===== src/Api/Restored.antt =====
-- `free` undoes `malloc`.
use zalloc.Base.{
  Bool, true, ℕ, ◌+◌, ◌*◌, ◌^◌, ◌≤◌, ◌<◌, ◌≡◌, refl, sym, ap, ◌∙◌, Bool-cases, ==_true, none, some,
  Run, ok, ◌>>=◌, arith, ◌==◌, if◌then◌else◌, inl, inr, two_pow_pos,
}
use zalloc.Buddy.Size.{page_size, block_pages}
use zalloc.Buddy.Tree.{Block, release, lookup}
use zalloc.Buddy.Tree.Largest.{largest}
use zalloc.Buddy.Tree.Lookup.{lookup-release_map}
use zalloc.Mapped.{World}
use zalloc.Mapped.Service.{Ready, buddy_xmalloc-Granted, buddy_xfree-release}
use zalloc.Api.{Process, malloc, free}
use zalloc.Api.Moved.{release-some, positive}

-- The allocations are those of `t`, and the bytes of memory those of `p`.
pub record Restored (p : Process) (t : Block) (r : Run Process) : Type 0 where
  pub after : Process
  pub result : r ≡ ok after
  pub tree : Block
  pub still : Ready after.heap tree
  pub map : (q : ℕ) → lookup 19 q tree ≡ lookup 19 q t
  pub bytes : after.memory ≡ p.memory

==_refl : (o : ℕ) → (o == o) ≡ true
==_refl o = ground arith

module _ (lib : Bool) (w : World) (fuel : ℕ) (p : Process) (t : Block)
    (ready : Ready p.heap t) where
  map_back :
      (s e o q : ℕ) (t' tree : Block)
      → ((q : ℕ) → lookup 19 q t' ≡ (if q == o then some (s, e) else lookup 19 q t))
      → lookup 19 o t ≡ none
      → release 19 o t' ≡ some tree
      → lookup 19 q tree ≡ lookup 19 q t
  map_back s e o q t' tree before fresh freed =
      lookup-release_map 19 o q t' freed ∙ elim (Bool-cases (q == o)) [
        | inl same ↦ rw same (sym fresh ∙ ap (λ x. lookup 19 x t) (sym (==_true q o same)))
        | inr apart ↦ rw apart (before q ∙ rw apart refl)
      ]

  own :
      (s e o : ℕ) (t' : Block)
      → ((q : ℕ) → lookup 19 q t' ≡ (if q == o then some (s, e) else lookup 19 q t))
      → lookup 19 o t' ≡ some (s, e)
  own s e o t' before = before o ∙ rw (==_refl o) refl

  free-ok :
      (q : Process) (t' tree : Block) (ready' : Ready q.heap t') (o : ℕ)
      → o < 2 ^ 19
      → release 19 o t' ≡ some tree
      → (r : Process) × (free lib w fuel q (q.heap.memblock + page_size * o) ≡ ok r)
        × Ready r.heap tree
        × (r.memory ≡ q.memory)
  unfolding free
  free-ok q t' tree ready' o inside freed =
      let done = buddy_xfree-release lib w q.heap t' ready' o inside freed in
      (
        record q { heap = done.after },
        rw (positive q.heap.memblock (page_size * o) ready'.base, done.result) refl,
        done.still,
        refl,
      )

  -- Where the tree has a free block of `2 ^ e` pages or more, `malloc` with enough fuel and then
  -- `free` lead back to the same allocations and the same bytes of memory.
  pub free-malloc :
      (s k e : ℕ)
      → block_pages s ≡ 2 ^ e
      → 19 ≡ k + e
      → 3 * 2 ^ k ≤ fuel
      → 2 ^ e ≤ largest 19 t
      → Restored p t (malloc lib w fuel p s >>= λ (ptr, q). free lib w fuel q ptr)
  unfolding malloc
  free-malloc s k e pages height enough room =
      let (o, t', got) =
        buddy_xmalloc-Granted lib w p.heap t ready s k e fuel pages height enough room in
      let (tree, freed) = release-some o t' (own s e o t' got.map) in
      let q : Process = record p { heap = got.after } in
      let (r, done, still, bytes) =
        free-ok q t' tree got.still o (omega (arith, got.inside, two_pow_pos e)) freed in
      let at : free lib w fuel q (p.heap.memblock + page_size * o) ≡ ok r =
        ap (λ b. free lib w fuel q (b + page_size * o)) (sym got.kept) ∙ done in
      record {
        after = r;
        result = rw got.result at;
        tree = tree;
        still = still;
        map = λ q. map_back s e o q t' tree got.map got.fresh freed;
        bytes = bytes;
      }
