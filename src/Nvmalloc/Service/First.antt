-- ===== src/Nvmalloc/Service/First.antt =====
-- The first block that waits: its header, its place in the links, and its release.
use mathlib.Core.Path.{subst}
use zalloc.Base.{
  ℕ, ◌+◌, ◌-◌, ◌*◌, ◌%◌, ◌^◌, ◌≤◌, ◌<◌, ◌≡◌, refl, sym, ap, ◌∙◌, true, false, inl, inr, List, [],
  ◌∷◌, ◌++◌, Run, ok, ◌>>=◌, leb, ◌==◌, if◌then◌else◌, arith, Bool-cases,
}
use zalloc.Nvmalloc.{base_size}
use zalloc.Nvmalloc.Header.{negate, crc_compute, crc_get_size}
use zalloc.Nvmalloc.Header.Fields.{crc_compute-Carries}
use zalloc.Nvmalloc.Free.{nil, Nvm, get_word}
use zalloc.Nvmalloc.Heap.{extend_free_location, insert_free_location, increment_time}
use zalloc.Nvmalloc.Tiles.{Tile, held, vacant, total, total-append}
use zalloc.Nvmalloc.Tiles.Closed.{IsClosed, IsClosed-cons, IsClosed-append, IsClosed-rest}
use zalloc.Nvmalloc.Block.{IsLaidOut}
use zalloc.Nvmalloc.Release.Outcome.{Released}
use zalloc.Nvmalloc.Blocks.{blocks, Gains, blocks-append, blocks-skip, blocks-AllVacant, times}
use zalloc.Nvmalloc.Service.{Linked, Chain-last}

-- What a release does to the blocks.
pub Released-Gains :
    (crc : ℕ → ℕ → ℕ) (st : Nvm) (before : List Tile) (n : ℕ) (after : List Tile) (r : Run Nvm)
    → (d : Released crc st before n after r)
    → Gains (blocks 0 d.row) (blocks 0 (before ++ (held n ∷ after))) (total before, held n)
unfolding blocks total
Released-Gains crc st before n after r d = record {
  front = blocks 0 d.outer;
  back = blocks (total before + n + total d.inner') d.outer';
  without = elim d.row_is [
    | inl (same, none_left) ↦
        ap (blocks 0) same
        ∙ (append_nil (blocks 0 d.outer)
            ∙ ap (λ t. blocks 0 d.outer ++ blocks (total before + n + total d.inner') t)
                (sym none_left))
    | inr (same, more_left) ↦
        ap (blocks 0) same
        ∙ (blocks-append 0 d.outer (d.inner ++ (vacant (n + total d.inner') ∷ d.outer'))
            ∙ ap (◌++◌ (blocks 0 d.outer)) (
                blocks-skip (0 + total d.outer) d.inner (vacant (n + total d.inner') ∷ d.outer')
                  d.free
                ∙ ap (λ p. blocks p d.outer') place))
  ];
  within =
      blocks-append 0 before (held n ∷ after)
      ∙ (ap (λ b. b ++ blocks (0 + total before) (held n ∷ after)) outer_only
          ∙ ap (◌++◌ (blocks 0 d.outer)) (
              ap (λ p. blocks p (held n ∷ after)) from
              ∙ ap (◌∷◌ (total before, held n)) (
                  ap (blocks (total before + n)) d.after_is
                  ∙ blocks-skip (total before + n) d.inner' d.outer' d.free')));
}
  where
    append_nil : (l : List (ℕ × Tile)) → l ≡ l ++ []
    append_nil [] = refl
    append_nil (x ∷ l) = ap (◌∷◌ x) (append_nil l)

    from : 0 + total before ≡ total before
    from = omega arith

    place :
        0 + total d.outer + total d.inner + (n + total d.inner') ≡ total before + n + total d.inner'
    place = omega (arith, ap total d.before_is ∙ total-append d.outer d.inner)

    outer_only : blocks 0 before ≡ blocks 0 d.outer
    outer_only =
        ap (blocks 0) d.before_is
        ∙ (blocks-append 0 d.outer d.inner
            ∙ (ap (◌++◌ (blocks 0 d.outer)) (blocks-AllVacant (0 + total d.outer) d.inner d.free)
                ∙ sym (append_nil (blocks 0 d.outer))))

-- A release leaves no free block at the end.
pub Released-IsClosed :
    (crc : ℕ → ℕ → ℕ) (st : Nvm) (before : List Tile) (n : ℕ) (after : List Tile) (r : Run Nvm)
    → (d : Released crc st before n after r) → IsClosed (before ++ (held n ∷ after))
    → IsClosed d.row
unfolding total
Released-IsClosed crc st before n after r d closed = elim d.row_is [
  | inl (same, none_left) ↦ rw same d.closed
  | inr (same, more_left) ↦
      let outer : IsClosed d.outer' = IsClosed-rest (held n ∷ d.inner') d.outer' (
        subst (λ l. IsClosed (held n ∷ l)) d.after_is
          (IsClosed-rest before (held n ∷ after) closed)) in
      let rest : 0 < total (d.inner ++ (vacant (n + total d.inner') ∷ d.outer')) =
        omega (arith, total-append d.inner (vacant (n + total d.inner') ∷ d.outer'), more_left) in
      subst IsClosed (sym same) (
        IsClosed-append d.outer (d.inner ++ (vacant (n + total d.inner') ∷ d.outer')) rest (
          IsClosed-append d.inner (vacant (n + total d.inner') ∷ d.outer')
            (omega (arith, more_left))
            (IsClosed-cons (vacant (n + total d.inner')) d.outer' more_left outer)))
]

-- The two calls at a place.
abbrev pub release_at : (ℕ → ℕ → ℕ) → Nvm → ℕ → ℕ → Run Nvm
release_at crc st n location =
    extend_free_location crc st location (base_size * n) >>= λ (size, whole, st').
    insert_free_location crc st' location size whole

pub increment_time-due :
    (crc : ℕ → ℕ → ℕ) (now n hd location : ℕ) (st rest st' : Nvm)
    → st.head ≡ location
    → (st.head == nil) ≡ false
    → leb ((st.time st.head + st.wait) % 2 ^ 64) now ≡ true
    → get_word st location ≡ ok hd
    → (crc_get_size (negate hd) + 2 ^ 32 - 1) % 2 ^ 32 ≡ base_size * n
    → (if st.head == st.tail
        then record st { head = nil; tail = nil }
        else record st { head = st.next st.head })
      ≡ rest
    → release_at crc rest n location ≡ ok st'
    → increment_time crc now st ≡ ok st'
unfolding increment_time
increment_time-due crc now n hd location st rest st' at some_wait due word size left release =
    let word_here : get_word st st.head ≡ ok hd = ap (get_word st) at ∙ word in
    rw (some_wait, due, word_here, size, left) (ap (release_at crc rest n) at ∙ release)

-- The list without its first block.
pub record Dropped (st : Nvm) (queue : List ℕ) : Type 0 where
  pub head : ℕ
  pub tail : ℕ
  pub result :
      (if st.head == st.tail
        then record st { head = nil; tail = nil }
        else record st { head = st.next st.head })
      ≡ record st { head = head; tail = tail }
  pub linked : Linked st.next head tail queue

pub drop_first :
    (st : Nvm) (u : ℕ) (rest : List ℕ)
    → Linked st.next st.head st.tail (u ∷ rest)
    → ((x : ℕ) → times x (u ∷ rest) ≤ 1)
    → Dropped st rest
unfolding times
drop_first st u [] (at, end) once =
    let same : (st.head == st.tail) ≡ true = ground (arith, at, end) in
    record { head = nil; tail = nil; result = rw same refl; linked = (refl, refl) }
drop_first st u (v ∷ rest) (at, (link, chain)) once =
    let (w, end, h) = Chain-last st.next st.tail v rest chain in
    let other : (st.head == st.tail) ≡ false = elim (Bool-cases (u == w)) [
      | inl same ↦ absurd (twice w same h (once w))
      | inr differs ↦ ground (arith, at, end)
    ] in
    record {
      head = st.next st.head;
      tail = st.tail;
      result = rw other refl;
      linked = (ap st.next at ∙ link, chain);
    }
  where
    twice :
        (w : ℕ)
        → (u == w) ≡ true
        → 0 < times w (v ∷ rest)
        → (if u == w then 1 else 0) + times w (v ∷ rest) ≤ 1
        → ⊥
    twice w same h le = omega (arith, h, rw same at le)

-- The size in a waiting block's header.
pub waiting_size :
    (crc : ℕ → ℕ → ℕ) (location n : ℕ)
    → base_size * n + 1 < 2 ^ 32
    → (crc_get_size (negate (negate (crc_compute crc location (base_size * n + 1)))) + 2 ^ 32 - 1)
        % 2 ^ 32
      ≡ base_size * n
waiting_size crc location n small =
    let c = (crc_compute-Carries crc location (base_size * n + 1) (omega arith) small).0 in
    let back : base_size * n + 1 + 2 ^ 32 - 1 ≡ base_size * n + 2 ^ 32 = omega arith in
    rw (c.back, c.read, back) (omega arith)

pub with_links :
    (crc : ℕ → ℕ → ℕ) (st : Nvm) (l : List Tile) (head tail : ℕ)
    → IsLaidOut crc st l
    → IsLaidOut crc (record st { head = head; tail = tail }) l
with_links crc st l head tail laid = record {
  bitmap = laid.bitmap;
  aligned = laid.aligned;
  zone = laid.zone;
  within = laid.within;
  small = laid.small;
  tiles = laid.tiles;
  places = laid.places;
}
