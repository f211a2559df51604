-- ===== src/Nvmalloc/Take/Carve.antt =====
-- `carve` and `use_run`: what is left of a run is a row of free blocks again.
use zalloc.Base.{
  ℕ, ◌+◌, ◌-◌, ◌*◌, ◌/◌, ◌^◌, ◌≤◌, ◌<◌, ◌≡◌, refl, ap, ◌∙◌, Bool, true, false, ◌⊎◌, inl, inr, List,
  [], ◌∷◌, ◌++◌, Run, ok, ◌>>=◌, ltb, leb, ◌==◌, if◌then◌else◌, arith, Bool-cases,
}
use zalloc.Nvmalloc.{base_size, nr_sizes, get_best_fit}
use zalloc.Nvmalloc.Fit.{get_best_fit-le}
use zalloc.Nvmalloc.Header.{negate, crc_compute}
use zalloc.Nvmalloc.Free.{Nvm, put, set_word, push_hint}
use zalloc.Nvmalloc.Heap.{check_run, carve, use_run}
use zalloc.Nvmalloc.Tiles.{Tile, vacant, total, total-append, Tiles, Tiles-split}
use zalloc.Nvmalloc.Tiles.Edges.{AllVacant, done, more}
use zalloc.Nvmalloc.Search.Lists.{Places, Places-append}
use zalloc.Nvmalloc.Take.{hits, check_run-hits, hits-Rest}

-- The outcome of a new place in a list.
pub record Pushed (st : Nvm) (r : Run Nvm) : Type 0 where
  pub lists : ℕ → List ℕ
  pub result : r ≡ ok (record st { lists = lists })
  pub places : (i : ℕ) → Places (lists i)

pub push_hint-Pushed :
    (st : Nvm) (m u : ℕ)
    → 0 < m
    → u < 2 ^ 26
    → ((i : ℕ) → Places (st.lists i))
    → Pushed st (push_hint st (base_size * m) (base_size * u))
push_hint-Pushed st m u pos low all =
    let le = get_best_fit-le (base_size * m) (omega arith) in
    let within : leb (get_best_fit (base_size * m)) nr_sizes ≡ true = ground arith in
    record {
      lists = λ i.
          if i == get_best_fit (base_size * m)
          then st.lists i ++ (base_size * u ∷ [])
          else st.lists i;
      result = rw within refl;
      places = λ i. elim (Bool-cases (i == get_best_fit (base_size * m))) [
        | inl here ↦ rw here (Places-append (st.lists i) u (all i) low)
        | inr other ↦ rw other (all i)
      ];
    }

pub push_hint-same :
    (st st' : Nvm) (a b a' b' : ℕ)
    → a ≡ a'
    → b ≡ b'
    → push_hint st a' b' ≡ ok st'
    → push_hint st a b ≡ ok st'
push_hint-same st st' a b a' b' ea eb h =
    ap (λ x. push_hint st x b) ea ∙ (ap (λ x. push_hint st a' x) eb ∙ h)

carve-hit :
    (crc : ℕ → ℕ → ℕ) (st st' : Nvm) (need location space : ℕ) (hit : Bool)
    → hit ≡ true
    → ltb need space ≡ true
    → push_hint st (space - need) (location + need) ≡ ok st'
    → carve crc st need location space hit ≡ ok st'
unfolding carve
carve-hit crc st st' need location space hit is part h = rw (is, part, h) refl

carve-miss :
    (crc : ℕ → ℕ → ℕ) (st sealed st' : Nvm) (need location space : ℕ) (hit : Bool)
    → hit ≡ false
    → ltb need space ≡ true
    → set_word st (location + need) (negate (crc_compute crc (location + need) (space - need)))
      ≡ ok sealed
    → push_hint sealed (space - need) (location + need) ≡ ok st'
    → carve crc st need location space hit ≡ ok st'
unfolding carve
carve-miss crc st sealed st' need location space hit is part seal h = rw (is, part, seal, h) refl

-- The outcome of `k` units taken from a run of free blocks from `s` to `e`.
pub record Taken (crc : ℕ → ℕ → ℕ) (st : Nvm) (bits : ℕ → Bool) (s e k : ℕ) (r : Run (ℕ × Nvm))
    : Type 0 where
  pub rest : List Tile
  pub word : ℕ → ℕ
  pub lists : ℕ → List ℕ
  pub result : r ≡ ok (base_size * s, record st { word = word; lists = lists })
  pub places : (i : ℕ) → Places (lists i)
  pub all_free : AllVacant rest
  pub size : s + k + total rest ≡ e
  pub tiles : Tiles crc bits word (s + k) rest
  pub same : (x : ℕ) → (x < s) ⊎ (e ≤ x) → word (base_size * x) ≡ st.word (base_size * x)

module _ (crc : ℕ → ℕ → ℕ) (st : Nvm) (bits : ℕ → Bool) (s e k : ℕ) (free : List Tile)
    (v : AllVacant free) (t : Tiles crc bits st.word s free) (at : s + total free ≡ e)
    (clear : (x : ℕ) → s ≤ x → x < e → bits x ≡ true) (pos : 0 < k) (enough : k ≤ e - s)
    (small : e < 2 ^ 26) (high : base_size * e ≤ st.top) (all : (i : ℕ) → Places (st.lists i)) where
  checked :
      check_run crc
        (base_size * (e - s) / base_size + 1)
        st
        (base_size * (e - s))
        (base_size * k)
        (base_size * (e - s))
        (base_size * s)
        false
      ≡ ok (hits 0 k free)
  checked =
      let size : e - s ≡ total free = omega arith in
      let rounds : base_size * total free / base_size + 1 ≡ total free + 1 = omega arith in
      rw (size, rounds)
        (check_run-hits crc st bits (total free + 1) s 0 k (total free) false free v t (omega arith)
          (omega arith) (omega arith) (omega arith))

  -- Nothing is left.
  whole_Taken :
      e ≡ s + k
      → Taken crc st bits s e k (
          carve crc st (base_size * k) (base_size * s) (base_size * (e - s)) (hits 0 k free)
          >>= λ st'. ok (base_size * s, st'))
  unfolding carve total
  whole_Taken end =
      let full : ltb (base_size * k) (base_size * (e - s)) ≡ false = ground arith in
      record {
        rest = [];
        word = st.word;
        lists = st.lists;
        result = rw full refl;
        places = all;
        all_free = done;
        size = omega arith;
        tiles = tt;
        same = λ x h. refl;
      }

  sums :
      k < e - s
      → (base_size * (e - s) - base_size * k ≡ base_size * (e - (s + k)))
        × (base_size * s + base_size * k ≡ base_size * (s + k))
  sums h = (omega arith, omega arith)

  -- A block ends where the new one does.
  exact_Taken :
      k < e - s
      → hits 0 k free ≡ true
      → Taken crc st bits s e k (
          carve crc st (base_size * k) (base_size * s) (base_size * (e - s)) (hits 0 k free)
          >>= λ st'. ok (base_size * s, st'))
  exact_Taken part hit =
      let more_left : ltb (base_size * k) (base_size * (e - s)) ≡ true = ground arith in
      let (space, place) = sums part in
      let r = hits-Rest 0 k free v hit in
      let pushed = push_hint-Pushed st (e - (s + k)) (s + k) (omega arith) (omega arith) all in
      let (tf, tr) = Tiles-split crc bits st.word s r.first r.rest (rw r.whole at t) in
      let start : s + total r.first ≡ s + k = omega (arith, r.at) in
      record {
        rest = r.rest;
        word = st.word;
        lists = pushed.lists;
        result =
            rw
              (carve-hit crc st (record st { lists = pushed.lists }) (base_size * k) (base_size * s)
                (base_size * (e - s)) (hits 0 k free) hit more_left
                (push_hint-same st (record st { lists = pushed.lists })
                  (base_size * (e - s) - base_size * k) (base_size * s + base_size * k)
                  (base_size * (e - (s + k))) (base_size * (s + k)) space place pushed.result))
              refl;
        places = pushed.places;
        all_free = r.all_free;
        size = omega (arith, r.at, ap total r.whole ∙ total-append r.first r.rest);
        tiles = rw start at tr;
        same = λ x h. refl;
      }

  -- What is left gets a header of its own.
  cut_Taken :
      k < e - s
      → hits 0 k free ≡ false
      → Taken crc st bits s e k (
          carve crc st (base_size * k) (base_size * s) (base_size * (e - s)) (hits 0 k free)
          >>= λ st'. ok (base_size * s, st'))
  unfolding total
  cut_Taken part miss =
      let more_left : ltb (base_size * k) (base_size * (e - s)) ≡ true = ground arith in
      let (space, place) = sums part in
      let seal = negate (crc_compute crc (base_size * (s + k)) (base_size * (e - (s + k)))) in
      let st' : Nvm = record st { word = put st.word (base_size * (s + k)) seal } in
      let pushed = push_hint-Pushed st' (e - (s + k)) (s + k) (omega arith) (omega arith) all in
      let inside : leb (base_size * (s + k) + 8) st.top ≡ true = ground arith in
      record {
        rest = vacant (e - (s + k)) ∷ [];
        word = put st.word (base_size * (s + k)) seal;
        lists = pushed.lists;
        result =
            rw
              (carve-miss crc st st' (record st' { lists = pushed.lists }) (base_size * k)
                (base_size * s) (base_size * (e - s)) (hits 0 k free) miss more_left
                (rw (space, place, inside) refl)
                (push_hint-same st' (record st' { lists = pushed.lists })
                  (base_size * (e - s) - base_size * k) (base_size * s + base_size * k)
                  (base_size * (e - (s + k))) (base_size * (s + k)) space place pushed.result))
              refl;
        places = pushed.places;
        all_free = more done;
        size = omega arith;
        tiles = (
          omega arith,
          λ x low up. clear x (omega arith) (omega arith),
          own (base_size * (s + k)) seal,
          tt,
        );
        same = λ x h. other x h;
      }
    where
      own : (p w : ℕ) → put st.word p w p ≡ w
      own p w = let same : (p == p) ≡ true = ground arith in rw same refl

      other :
          (x : ℕ)
          → (x < s) ⊎ (e ≤ x)
          → put st.word
              (base_size * (s + k))
              (negate (crc_compute crc (base_size * (s + k)) (base_size * (e - (s + k)))))
              (base_size * x)
            ≡ st.word (base_size * x)
      other x (inl h) =
          let apart : (base_size * (s + k) == base_size * x) ≡ false = ground arith in rw apart refl
      other x (inr h) =
          let apart : (base_size * (s + k) == base_size * x) ≡ false = ground arith in rw apart refl

  pub use_run-Taken :
      Taken crc st bits s e k (use_run crc st (base_size * k) (base_size * s) (base_size * (e - s)))
  unfolding use_run
  use_run-Taken = rw checked (elim (Bool-cases (ltb k (e - s))) [
    | inr all_used ↦ whole_Taken (ground arith)
    | inl part ↦ elim (Bool-cases (hits 0 k free)) [
      | inl hit ↦ exact_Taken (ground arith) hit
      | inr miss ↦ cut_Taken (ground arith) miss
    ]
  ])
