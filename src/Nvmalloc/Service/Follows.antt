-- ===== src/Nvmalloc/Service/Follows.antt =====
-- One call of `nvmalloc` or `nvfree` by a client that holds some blocks.
use mathlib.Core.Path.{subst}
use zalloc.Base.{
  leb, ◌%◌, ℕ, ◌+◌, ◌*◌, ◌^◌, ◌<◌, ◌≡◌, refl, sym, ap, ◌∙◌, Bool, true, ◌&&◌, ◌⊎◌, inl, inr, List,
  [], ◌∷◌, ◌++◌, Option, none, some, Run, ok, ◌==◌, if◌then◌else◌, arith,
}
use zalloc.Nvmalloc.{base_size}
use zalloc.Nvmalloc.Free.{Nvm}
use zalloc.Nvmalloc.Heap.{header_size, nvmalloc, nvfree}
use zalloc.Nvmalloc.Tiles.{Tile, live, held, total}
use zalloc.Nvmalloc.Block.{units_for}
use zalloc.Nvmalloc.Blocks.{blocks, blocks-append}
use zalloc.Nvmalloc.Lives.{
  lives, copies, lives-append, copies-append, lives-Gains_live, lives-Gains_held, lives-LiveAt,
}
use zalloc.Nvmalloc.Service.{IsHeap, Wakes}
use zalloc.Nvmalloc.Service.Alloc.{nvmalloc-Allocated}
use zalloc.Nvmalloc.Service.Queue.{first_stamp}
use zalloc.Nvmalloc.Service.Free.{nvfree-Woken}

-- The state is a heap, whose blocks in use are those that the client holds.
pub record Serves (crc : ℕ → ℕ → ℕ) (st : Nvm) (owned : List (ℕ × ℕ)) : Type 0 where
  pub row : List Tile
  pub queue : List ℕ
  pub heap : IsHeap crc st row queue
  pub same : (x k : ℕ) → lives x k (blocks 0 row) ≡ copies x k owned

-- What a call leaves: the list stays empty where `idle`.
pub record Follows (crc : ℕ → ℕ → ℕ) (wait : ℕ) (idle : Type 0) (st : Nvm) (owned : List (ℕ × ℕ))
    : Type 0 where
  pub serves : Serves crc st owned
  pub wait_kept : st.wait ≡ wait
  pub idle_kept : idle → serves.queue ≡ []

-- A wake changes no block in use.
Wakes-lives :
    (old new : List (ℕ × Tile)) (queue queue' : List ℕ) (x k : ℕ)
    → Wakes old new queue queue'
    → lives x k new ≡ lives x k old
Wakes-lives old new queue queue' x k (inl (same, left)) = ap (lives x k) same
Wakes-lives old new queue queue' x k (inr (v, m, first, gains)) =
    sym (lives-Gains_held x k v m new old gains)

-- The freed block waits: it is in use no more.
held_lives :
    (x k n : ℕ) (before after : List Tile)
    → lives x k (blocks 0 (before ++ (live n ∷ after)))
      ≡ (if total before == x && n == k then 1 else 0)
        + lives x k (blocks 0 (before ++ (held n ∷ after)))
unfolding blocks lives
held_lives x k n before after =
    let from : 0 + total before ≡ total before = omega arith in
    omega (
      arith,
      ap (lives x k) (
          blocks-append 0 before (live n ∷ after)
          ∙ ap (λ p. blocks 0 before ++ blocks p (live n ∷ after)) from),
      ap (lives x k) (
          blocks-append 0 before (held n ∷ after)
          ∙ ap (λ p. blocks 0 before ++ blocks p (held n ∷ after)) from),
      lives-append x k (blocks 0 before) ((total before, live n) ∷ blocks (total before + n) after),
      lives-append x k (blocks 0 before) ((total before, held n) ∷ blocks (total before + n) after),
    )

pub same_ok : {A : Type 0} {r : Run A} {a b : A} → r ≡ ok a → r ≡ ok b → a ≡ b
same_ok e f = cc (e, f)

same_found :
    {r : Run (Option ℕ × Nvm)} {a b : ℕ} {s t : Nvm}
    → r ≡ ok (some a, s)
    → r ≡ ok (some b, t)
    → (a ≡ b) × (s ≡ t)
same_found e f = (cc (e, f), cc (e, f))

Wakes-nil :
    (old new : List (ℕ × Tile)) (queue queue' : List ℕ)
    → Wakes old new queue queue'
    → queue ≡ []
    → queue' ≡ []
Wakes-nil old new queue queue' (inl (same, left)) none_wait = left ∙ none_wait
Wakes-nil old new queue queue' (inr (v, m, first, gains)) none_wait = absurd (cc (first, none_wait))

pub gets-Follows :
    (crc : ℕ → ℕ → ℕ) (st : Nvm) (owned : List (ℕ × ℕ)) (mapped : Bool) (now size unit : ℕ)
    (st' : Nvm)
    → (s : Serves crc st owned) → st.top + size + 2 ^ 24 + header_size < 2 ^ 32
    → nvmalloc crc mapped true now st size ≡ ok (some (base_size * unit + header_size), st')
    → Follows crc st.wait (s.queue ≡ []) st' ((unit, units_for (size + header_size)) ∷ owned)
unfolding copies
gets-Follows crc st owned mapped now size unit st' s small e =
    elim (nvmalloc-Allocated crc mapped now st s.row s.queue size s.heap small) [
      | inr d ↦ absurd (cc (e, d.result))
      | inl a ↦
          let (at, is) = same_found a.result e in
          let place : a.unit ≡ unit = omega (arith, at) in
          subst
            (λ t.
              Follows crc st.wait (s.queue ≡ []) t ((unit, units_for (size + header_size)) ∷ owned))
            is
            (record {
              wait_kept = a.wait_kept;
              idle_kept = Wakes-nil a.between (blocks 0 a.row) s.queue a.left a.wakes;
              serves = record {
                row = a.row;
                queue = a.left;
                heap = a.heap;
                same = λ x k.
                    Wakes-lives a.between (blocks 0 a.row) s.queue a.left x k a.wakes
                    ∙ (lives-Gains_live x k a.unit (units_for (size + header_size)) (blocks 0 s.row)
                          a.between a.gains
                        ∙ (ap
                              (λ u.
                                (if u == x && units_for (size + header_size) == k then 1 else 0)
                                + lives x k (blocks 0 s.row))
                              place
                            ∙ ap
                                (◌+◌ (
                                  if unit == x && units_for (size + header_size) == k
                                  then 1
                                  else 0))
                                (s.same x k)));
              };
            })
    ]

pub fails-Follows :
    (crc : ℕ → ℕ → ℕ) (st : Nvm) (owned : List (ℕ × ℕ)) (mapped : Bool) (now size : ℕ) (st' : Nvm)
    → (s : Serves crc st owned) → st.top + size + 2 ^ 24 + header_size < 2 ^ 32
    → nvmalloc crc mapped true now st size ≡ ok (none, st')
    → Follows crc st.wait (s.queue ≡ []) st' owned
fails-Follows crc st owned mapped now size st' s small e =
    elim (nvmalloc-Allocated crc mapped now st s.row s.queue size s.heap small) [
      | inl a ↦ absurd (cc (e, a.result))
      | inr d ↦
          subst (λ t. Follows crc st.wait (s.queue ≡ []) t owned)
            (ap (λ p. p.1) (same_ok d.result e))
            (record {
              serves = record { row = s.row; queue = s.queue; heap = d.heap; same = s.same };
              wait_kept = d.wait_kept;
              idle_kept = λ none_wait. none_wait;
            })
    ]

-- A block of the client is one of the row.
pub owned_here : (x k : ℕ) (front back : List (ℕ × ℕ)) → 0 < copies x k (front ++ ((x, k) ∷ back))
unfolding copies
owned_here x k front back =
    let same : (x == x && k == k) ≡ true = ground arith in
    let one : copies x k ((x, k) ∷ back) ≡ 1 + copies x k back = rw same refl in
    omega (arith, copies-append x k front ((x, k) ∷ back), one)

-- The list has one block less.
popped :
    (queue left : List ℕ) (v : ℕ)
    → queue ≡ []
    → (queue ++ (v ∷ []) ≡ []) ⊎ ((u : ℕ) × (queue ++ (v ∷ []) ≡ u ∷ left))
    → left ≡ []
popped [] left v none_wait (inl e) = absurd (cc e)
popped [] left v none_wait (inr (u, e)) = cc e
popped (x ∷ queue) left v none_wait h = absurd (cc none_wait)

pub frees-Follows :
    (crc : ℕ → ℕ → ℕ) (st : Nvm) (front back : List (ℕ × ℕ)) (unit n now now' : ℕ) (st' : Nvm)
    → (s : Serves crc st (front ++ ((unit, n) ∷ back)))
    → nvfree crc now now' st (base_size * unit + header_size) ≡ ok st'
    → Follows crc st.wait
        ((s.queue ≡ []) × (leb ((first_stamp st now + st.wait) % 2 ^ 64) now' ≡ true))
        st'
        (front ++ back)
unfolding copies
frees-Follows crc st front back unit n now now' st' s e =
    let here =
      lives-LiveAt unit n 0 s.row (omega (arith, s.same unit n, owned_here unit n front back)) in
    let at : total here.before ≡ unit = omega (arith, here.at) in
    let woken =
      nvfree-Woken crc now now' st here.before n here.after s.queue
        (subst (λ l. IsHeap crc st l s.queue) here.whole s.heap) in
    let is : woken.state ≡ st' =
      same_ok woken.result
        (ap (λ u. nvfree crc now now' st (base_size * u + header_size)) at ∙ e) in
    subst
      (λ t.
        Follows crc st.wait
          ((s.queue ≡ []) × (leb ((first_stamp st now + st.wait) % 2 ^ 64) now' ≡ true)) t
          (front ++ back))
      is
      (record {
        wait_kept = woken.wait_kept;
        idle_kept = λ (none_wait, due).
            popped s.queue woken.left (total here.before) none_wait (woken.progress due);
        serves = record {
          row = woken.row;
          queue = woken.left;
          heap = woken.heap;
          same = λ x k. omega (
            arith,
            Wakes-lives (blocks 0 (here.before ++ (held n ∷ here.after))) (blocks 0 woken.row)
                (s.queue ++ (total here.before ∷ [])) woken.left x k woken.wakes,
            held_lives x k n here.before here.after,
            ap {B = ℕ} (λ u. if u == x && n == k then 1 else 0) at,
            ap (λ l. lives x k (blocks 0 l)) here.whole,
            s.same x k,
            copies-append x k front ((unit, n) ∷ back),
            copies-append x k front back,
          );
        };
      })
