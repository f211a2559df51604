-- ===== src/Mapped/Service.antt =====
-- What the calls of inc/buddy_alloc.c do once the file is mapped, and where it is not.
use mathlib.Core.Path.{subst}
use zalloc.Base.{
  ℕ, ◌+◌, ◌*◌, ◌/◌, ◌%◌, ◌^◌, ◌≤◌, ◌<◌, ◌≡◌, refl, ◌∙◌, Bool, true, false, none, some, Run, ok,
  arith, ltb, leb, ◌==◌, if◌then◌else◌, two_pow_pos,
}
use zalloc.Buddy.Size.{page_size, block_pages}
use zalloc.Buddy.State.{Buddy}
use zalloc.Buddy.Tree.{Block, release, lookup, IsMerged}
use zalloc.Buddy.Tree.Largest.{largest}
use zalloc.Buddy.Repr.{IsBuddy}
use zalloc.Buddy.Free.{buddy_free, buddy_used_size}
use zalloc.Buddy.Free.Walk.{buddy_used_size-lookup}
use zalloc.Buddy.Free.Whole.{Released, ReleasedAs, buddy_free-release}
use zalloc.Buddy.Roundtrip.{buddy_alloc-Served}
use zalloc.Mapped.{
  World, Mapped, init_, distance, xmalloc_on, buddy_xmalloc, xfree_on, buddy_xfree, query_on,
  buddy_get_size,
}

-- The file is mapped, and the tree of blocks `t` stands for its pages.
pub record Ready (st : Mapped) (t : Block) : Type 0 where
  pub init : st.is_init ≡ true
  pub alloc : Buddy
  pub held : st.buddy ≡ some alloc
  pub valid : IsBuddy alloc t
  pub height : alloc.level ≡ 19
  pub base : 0 < st.memblock
  pub fits : st.memblock + 2 ^ 31 < 2 ^ 64

pub init_-ready :
    (lib : Bool) (w : World) (st : Mapped) → st.is_init ≡ true → init_ lib w st ≡ ok st
unfolding init_
init_-ready lib w st h = rw h refl

-- The address of a page.
pub address-distance :
    (st : Mapped) (o : ℕ)
    → st.memblock + 2 ^ 31 < 2 ^ 64
    → o < 2 ^ 19
    → distance (st.memblock + page_size * o) st.memblock ≡ page_size * o
address-distance st o fits h = omega arith

pub ltb-zero : (n : ℕ) → ltb n 0 ≡ false
ltb-zero n = ground arith

leb-add : (m n : ℕ) → leb m (m + n) ≡ true
leb-add m n = ground arith

-- An address within the map does not wrap.
address_kept :
    (base n o : ℕ)
    → base + 2 ^ 31 < 2 ^ 64
    → 0 < n
    → o + n ≤ 2 ^ 19
    → (base + page_size * o) % 2 ^ 64 ≡ base + page_size * o
address_kept base n o fits pos inside = omega arith

page_of : (o : ℕ) → page_size * o / page_size ≡ o
page_of o = omega arith

module _ (lib : Bool) (w : World) (st : Mapped) (t : Block) (ready : Ready st t) where
  -- The state with another allocator.
  abbrev pub with_buddy : Buddy → Mapped
  with_buddy b = record st { buddy = some b }

  pub with_buddy-Ready :
      (b : Buddy) (t' : Block)
      → IsBuddy b t'
      → b.level ≡ ready.alloc.level
      → Ready (with_buddy b) t'
  with_buddy-Ready b t' valid same = record {
    init = ready.init;
    alloc = b;
    held = refl;
    valid = valid;
    height = same ∙ ready.height;
    base = ready.base;
    fits = ready.fits;
  }

  -- The outcome of a request: the page `o`, and the tree of blocks `t'`.
  pub record Granted (s e o : ℕ) (t' : Block) (r : Run (ℕ × Mapped)) : Type 0 where
    pub after : Mapped
    pub result : r ≡ ok (st.memblock + page_size * o, after)
    pub still : Ready after t'
    pub kept : after.memblock ≡ st.memblock
    pub inside : o + 2 ^ e ≤ 2 ^ 19
    pub map : (p : ℕ) → lookup 19 p t' ≡ (if p == o then some (s, e) else lookup 19 p t)
    pub fresh : lookup 19 o t ≡ none
    pub merged : IsMerged t → IsMerged t'

  -- Where the tree has a free block of `2 ^ e` pages or more, `buddy_xmalloc` with enough fuel
  -- returns the address of a page where no allocation began, with its block inside the map, and
  -- adds that one allocation to those of the tree.
  pub buddy_xmalloc-Granted :
      (s k e fuel : ℕ)
      → block_pages s ≡ 2 ^ e
      → 19 ≡ k + e
      → 3 * 2 ^ k ≤ fuel
      → 2 ^ e ≤ largest 19 t
      → (o : ℕ) × (t' : Block) × Granted s e o t' (buddy_xmalloc lib w fuel st s)
  unfolding buddy_xmalloc xmalloc_on
  buddy_xmalloc-Granted s k e fuel size height enough room =
      let room' : 2 ^ e ≤ largest ready.alloc.level t = rw ready.height room in
      let (o, t', served) =
        buddy_alloc-Served ready.alloc t s k e fuel ready.valid size (ready.height ∙ height) enough
          room' in
      let inside : o + 2 ^ e ≤ 2 ^ 19 = rw ready.height at served.inside in
      let address = address_kept st.memblock (2 ^ e) o ready.fits (two_pow_pos e) inside in
      (
        o,
        t',
        record {
          after = with_buddy served.result.after;
          result =
              rw
                (
                  init_-ready lib w st ready.init,
                  ready.held,
                  served.result.result,
                  ltb-zero (page_size * o),
                  address,
                )
                refl;
          still = with_buddy-Ready served.result.after t' served.result.valid served.result.level;
          kept = refl;
          inside = inside;
          map = rw ready.height at served.map;
          fresh = rw ready.height at served.fresh;
          merged = served.merged;
        },
      )

  pub record Returned (t' : Block) (r : Run Mapped) : Type 0 where
    pub after : Mapped
    pub result : r ≡ ok after
    pub still : Ready after t'
    pub kept : after.memblock ≡ st.memblock

  -- At the address of a page, `buddy_xfree` leaves the tree of blocks that the release gives.
  pub buddy_xfree-release :
      (o : ℕ) {t' : Block}
      → o < 2 ^ 19
      → release 19 o t ≡ some t'
      → Returned t' (buddy_xfree lib w st (st.memblock + page_size * o))
  unfolding buddy_xfree xfree_on
  buddy_xfree-release o {t'} inside freed =
      let page = page_of o in
      let freed' : release ready.alloc.level (page_size * o / page_size) t ≡ some t' =
        rw (page, ready.height) freed in
      let done : Released ready.alloc t' (buddy_free ready.alloc (page_size * o)) =
        subst (λ x. ReleasedAs ready.alloc x (buddy_free ready.alloc (page_size * o))) freed'
          (buddy_free-release ready.alloc t ready.valid (page_size * o)
            (omega (arith, ready.height)) (rw (page, ready.height) inside)) in
      record {
        after = with_buddy done.after;
        result =
            rw
              (
                init_-ready lib w st ready.init,
                ready.held,
                leb-add st.memblock (page_size * o),
                address-distance st o ready.fits inside,
                done.result,
              )
              refl;
        still = with_buddy-Ready done.after t' done.valid done.level;
        kept = refl;
      }

  -- At the address of a page where an allocation begins, `buddy_get_size` gives the bytes that
  -- were asked for and changes nothing.
  pub buddy_get_size-lookup :
      (o : ℕ) {s h : ℕ}
      → o < 2 ^ 19
      → lookup 19 o t ≡ some (s, h)
      → buddy_get_size lib w st (st.memblock + page_size * o) ≡ ok (s, st)
  unfolding buddy_get_size query_on
  buddy_get_size-lookup o {s} {h} inside found =
      let used : buddy_used_size ready.alloc (page_size * o) ≡ ok s =
        buddy_used_size-lookup ready.alloc t ready.valid (page_size * o)
          (rw (page_of o, ready.height) inside)
        ∙ rw (page_of o, ready.height, found) refl in
      rw
        (init_-ready lib w st ready.init, ready.held, address-distance st o ready.fits inside, used)
        refl
