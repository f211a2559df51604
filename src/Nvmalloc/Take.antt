-- ===== src/Nvmalloc/Take.antt =====
-- What `use_run` does with a run of free blocks: the walk over its headers, and what is left of it.
pub mod Carve
use zalloc.Base.{
  ==_same, ℕ, zero, suc, ◌+◌, ◌-◌, ◌*◌, ◌%◌, ◌^◌, ◌≤◌, ◌<◌, ◌≡◌, refl, sym, ap, ◌∙◌, Bool, true,
  false, ◌||◌, ◌⊎◌, inl, inr, List, [], ◌∷◌, ◌++◌, Run, ok, ◌>>=◌, ltb, leb, ◌==◌, if◌then◌else◌,
  arith, Bool-cases, ==_true,
}
use zalloc.Nvmalloc.{base_size}
use zalloc.Nvmalloc.Header.{negate, crc_compute, crc_get_size}
use zalloc.Nvmalloc.Header.Fields.{Carries, crc_compute-Carries}
use zalloc.Nvmalloc.Free.{Nvm, get_word}
use zalloc.Nvmalloc.Heap.{check_run}
use zalloc.Nvmalloc.Tiles.{Tile, live, held, vacant, units, is_vacant, total, Tiles}
use zalloc.Nvmalloc.Tiles.Edges.{AllVacant, done, more}

-- Whether a block ends `k` units on, `d` of which lie before the row.
unfoldable pub hits : (d k : ℕ) → List Tile → Bool
hits d k [] = false
hits d k (s ∷ l) = (d + units s == k) || hits (d + units s) k l

or_assoc : (a b c : Bool) → ((a || b) || c) ≡ (a || (b || c))
or_assoc true b c = refl
or_assoc false b c = refl

or_false : (a : Bool) → (a || false) ≡ a
or_false true = refl
or_false false = refl

scaled : (a k : ℕ) → (base_size * a == base_size * k) ≡ (a == k)
scaled a k = ground arith

module _ (crc : ℕ → ℕ → ℕ) (st : Nvm) (bits : ℕ → Bool) where
  pub check_run-hits :
      (fuel p d k size : ℕ) (ef : Bool) (l : List Tile)
      → AllVacant l
      → Tiles crc bits st.word p l
      → base_size * (p + total l) ≤ st.top
      → size ≡ d + total l
      → size < 2 ^ 26
      → total l < fuel
      → check_run crc fuel st
          (base_size * size)
          (base_size * k)
          (base_size * total l)
          (base_size * p)
          ef
        ≡ ok (ef || hits d k l)
  unfolding check_run total hits
  check_run-hits zero p d k size ef l v t high sum small enough = absurd (omega arith)
  check_run-hits (suc fuel) p d k size ef [] done t high sum small enough =
      ap ok (sym (or_false ef))
  check_run-hits (suc fuel) p d k size ef (live n ∷ l) v t high sum small enough = elim v [ ]
  check_run-hits (suc fuel) p d k size ef (held n ∷ l) v t high sum small enough = elim v [ ]
  check_run-hits (suc fuel) p d k size ef (vacant n ∷ l) (more v) (pos, clear, head, rest) high sum
        small enough =
      let c =
        (crc_compute-Carries crc (base_size * p) (base_size * n) (omega arith) (omega arith)).0 in
      let some_left : (base_size * (n + total l) == 0) ≡ false = ground arith in
      let inside : leb (base_size * p + 8) st.top ≡ true = ground arith in
      let left : (base_size * (n + total l) + 2 ^ 32 - base_size * n) % 2 ^ 32
          ≡ base_size * total l =
        omega arith in
      let used : (base_size * size + 2 ^ 32 - base_size * total l) % 2 ^ 32 ≡ base_size * (d + n) =
        omega arith in
      let next : base_size * p + base_size * n ≡ base_size * (p + n) = omega arith in
      let same : (crc_compute crc (base_size * p) (base_size * n)
            == crc_compute crc (base_size * p) (base_size * n))
          ≡ true =
        ==_same (crc_compute crc (base_size * p) (base_size * n)) in
      rw (some_left, inside, head, c.back, c.read, same, left, used, scaled (d + n) k, next)
        (check_run-hits fuel (p + n) (d + n) k size (ef || d + n == k) l v rest (omega arith)
            (omega arith) small (omega arith)
          ∙ ap ok (or_assoc ef (d + n == k) (hits (d + n) k l)))

-- The rest of a row from a place that a block ends at.
pub record Rest (d k : ℕ) (l : List Tile) : Type 0 where
  pub first : List Tile
  pub rest : List Tile
  pub whole : l ≡ first ++ rest
  pub at : d + total first ≡ k
  pub all_free : AllVacant rest

pub hits-Rest : (d k : ℕ) (l : List Tile) → AllVacant l → hits d k l ≡ true → Rest d k l
unfolding hits total
hits-Rest d k [] v h = absurd (cc h)
hits-Rest d k (live n ∷ l) v h = elim v [ ]
hits-Rest d k (held n ∷ l) v h = elim v [ ]
hits-Rest d k (vacant n ∷ l) (more v) h = elim (Bool-cases (d + n == k)) [
  | inl here ↦ record {
    first = vacant n ∷ [];
    rest = l;
    whole = refl;
    at = omega (arith, ==_true (d + n) k here);
    all_free = v;
  }
  | inr later ↦
      let r = hits-Rest (d + n) k l v (rw later at h) in
      record {
        first = vacant n ∷ r.first;
        rest = r.rest;
        whole = ap (◌∷◌ (vacant n)) r.whole;
        at = omega (arith, r.at);
        all_free = r.all_free;
      }
]
