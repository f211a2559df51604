-- ===== src/Nvmalloc/Service/Session.antt =====
-- Sequences of calls of `nvmalloc` and `nvfree`, with the blocks that the client holds.
use mathlib.Core.Path.{subst}
use zalloc.Base.{
  ℕ, ◌+◌, ◌*◌, ◌^◌, ◌≤◌, ◌<◌, ◌≡◌, refl, Bool, true, ◌&&◌, ◌⊎◌, inl, inr, List, [], ◌∷◌, ◌++◌, none,
  some, ok, ◌==◌, arith,
}
use zalloc.Nvmalloc.{base_size}
use zalloc.Nvmalloc.Free.{page_bytes, Nvm}
use zalloc.Nvmalloc.Heap.{header_size, nvmalloc_init, nvmalloc, nvfree}
use zalloc.Nvmalloc.Marks.{is_clear}
use zalloc.Nvmalloc.Block.{units_for}
use zalloc.Nvmalloc.Blocks.{blocks}
use zalloc.Nvmalloc.Lives.{lives, copies, copies-append, lives-within, lives_apart, lives-le}
use zalloc.Nvmalloc.Service.Start.{nvmalloc_init-Begun}
use zalloc.Nvmalloc.Service.Follows.{
  Serves, same_ok, owned_here, gets-Follows, fails-Follows, frees-Follows,
}

-- The states that calls lead to. The client notes the unit of each block that it gets, and how many
-- units the size and the header take; it frees only what it holds.
pub data Session (crc : ℕ → ℕ → ℕ) : Nvm → List (ℕ × ℕ) → Type 0 where
  begin :
      (pages wait : ℕ) (old st : Nvm)
      → pages * page_bytes < 2 ^ 32
      → nvmalloc_init true pages wait old ≡ ok st
      → Session crc st []
  gets :
      {st : Nvm} {owned : List (ℕ × ℕ)}
      → Session crc st owned
      → (mapped : Bool) (now size unit : ℕ) (st' : Nvm)
      → st.top + size + 2 ^ 24 + header_size < 2 ^ 32
      → nvmalloc crc mapped true now st size ≡ ok (some (base_size * unit + header_size), st')
      → Session crc st' ((unit, units_for (size + header_size)) ∷ owned)
  fails :
      {st : Nvm} {owned : List (ℕ × ℕ)}
      → Session crc st owned
      → (mapped : Bool) (now size : ℕ) (st' : Nvm) → st.top + size + 2 ^ 24 + header_size < 2 ^ 32
      → nvmalloc crc mapped true now st size ≡ ok (none, st')
      → Session crc st' owned
  frees :
      {st : Nvm} (front back : List (ℕ × ℕ)) (unit k : ℕ)
      → Session crc st (front ++ ((unit, k) ∷ back))
      → (now now' : ℕ) (st' : Nvm)
      → nvfree crc now now' st (base_size * unit + header_size) ≡ ok st'
      → Session crc st' (front ++ back)

Session-Serves :
    (crc : ℕ → ℕ → ℕ) (st : Nvm) (owned : List (ℕ × ℕ)) → Session crc st owned → Serves crc st owned
unfolding blocks lives copies
Session-Serves crc st owned (begin pages wait old st' small e) =
    let b = nvmalloc_init-Begun crc pages wait old small in
    subst (λ t. Serves crc t []) (same_ok b.result e)
      (record { row = []; queue = []; heap = b.heap; same = λ x k. refl })
Session-Serves crc st owned (gets {st = before} {owned = had} s mapped now size unit st' small e) =
    (gets-Follows crc before had mapped now size unit st (Session-Serves crc before had s) small
      e).serves
Session-Serves crc st owned (fails {st = before} s mapped now size st' small e) =
    (fails-Follows crc before owned mapped now size st (Session-Serves crc before owned s) small
      e).serves
Session-Serves crc st owned (frees {st = before} front back unit k s now now' st' e) =
    (frees-Follows crc before front back unit k now now' st
      (Session-Serves crc before (front ++ ((unit, k) ∷ back)) s) e).serves

-- Whatever the order of the calls of `nvmalloc` and `nvfree` from `nvmalloc_init` on, any two blocks
-- that the client holds lie apart and within the memory, where it frees only what it holds, the
-- bitmap gets its memory, and at each call the memory, the size and 2^24 + 8 bytes are less than
-- 2^32 together.
pub Session-apart :
    (crc : ℕ → ℕ → ℕ) (st : Nvm) (front middle back : List (ℕ × ℕ)) (u k v m : ℕ)
    → Session crc st (front ++ ((u, k) ∷ (middle ++ ((v, m) ∷ back))))
    → ((u + k ≤ v) ⊎ (v + m ≤ u)) × (base_size * (u + k) ≤ st.top) × (base_size * (v + m) ≤ st.top)
unfolding copies
Session-apart crc st front middle back u k v m session =
    let owned = front ++ ((u, k) ∷ (middle ++ ((v, m) ∷ back))) in
    let s = Session-Serves crc st (front ++ ((u, k) ∷ (middle ++ ((v, m) ∷ back)))) session in
    let laid = s.heap.laid_out in
    let here : 0 < lives u k (blocks 0 s.row) =
      omega (arith, s.same u k, owned_here u k front (middle ++ ((v, m) ∷ back))) in
    let there : 0 < lives v m (blocks 0 s.row) = omega (
      arith,
      s.same v m,
      copies-append v m front ((u, k) ∷ (middle ++ ((v, m) ∷ back))),
      owned_here v m middle back,
    ) in
    let (low, some_units, high) =
      lives-within crc (is_clear st.bitmap) st.word u k 0 s.row laid.tiles here in
    let (low', some_units', high') =
      lives-within crc (is_clear st.bitmap) st.word v m 0 s.row laid.tiles there in
    (
      (elim (lives_apart crc (is_clear st.bitmap) st.word u k v m 0 s.row laid.tiles here there) [
        | inr apart ↦ apart
        | inl (at, size) ↦
            let same : (u == u && k == k) ≡ true = ground arith in
            let first : copies u k ((u, k) ∷ (middle ++ ((v, m) ∷ back)))
                ≡ 1 + copies u k (middle ++ ((v, m) ∷ back)) =
              rw same refl in
            let second : 0 < copies u k (middle ++ ((v, m) ∷ back)) =
              subst (λ w. 0 < copies u k (middle ++ ((w, m) ∷ back))) at
                (subst (λ w. 0 < copies u k (middle ++ ((u, w) ∷ back))) size
                  (owned_here u k middle back)) in
            absurd (
              omega (
                arith,
                lives-le crc (is_clear st.bitmap) st.word u k 0 s.row laid.tiles,
                s.same u k,
                copies-append u k front ((u, k) ∷ (middle ++ ((v, m) ∷ back))),
                first,
                second,
              ))
      ]),
      omega (arith, high, laid.zone, laid.within),
      omega (arith, high', laid.zone, laid.within),
    )
