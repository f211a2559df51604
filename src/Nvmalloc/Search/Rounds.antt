-- ===== src/Nvmalloc/Search/Rounds.antt =====
-- `find_run`: the search goes through the lists, and ends.
use mathlib.Core.Path.{subst}
use zalloc.Base.{
  ℕ, zero, suc, ◌+◌, ◌-◌, ◌*◌, ◌≤◌, ◌<◌, ◌≡◌, refl, ap, ◌∙◌, true, ◌⊎◌, inl, inr, List, [], ◌∷◌,
  Option, none, some, Run, ok, leb, ◌==◌, arith, Bool-cases, Option-cases,
}
use zalloc.Nvmalloc.{base_size, nr_sizes}
use zalloc.Nvmalloc.Marks.{is_clear}
use zalloc.Nvmalloc.Free.{Nvm, try_list, with_list, find_run}
use zalloc.Nvmalloc.Search.{Covers}
use zalloc.Nvmalloc.Search.Lists.{Places, FitsOption, try_list-Tried}

-- The outcome of the search: the same state but for the lists, and a run that fits.
pub record Found (st : Nvm) (q k : ℕ) (r : Run (Nvm × Option (ℕ × ℕ))) : Type 0 where
  pub lists : ℕ → List ℕ
  pub found : Option (ℕ × ℕ)
  pub result : r ≡ ok (record st { lists = lists }, found)
  pub places : (i : ℕ) → Places (lists i)
  pub fits : FitsOption (is_clear st.bitmap) q k found

pub List-cases {ℓ} : {A : Type ℓ} (l : List A) → (l ≡ []) ⊎ ((x : A) × (xs : List A) × (l ≡ x ∷ xs))
List-cases [] = inl refl
List-cases (x ∷ xs) = inr (x, xs, refl)

with_list-Places :
    (st : Nvm) (index : ℕ) (l : List ℕ)
    → ((i : ℕ) → Places (st.lists i))
    → Places l
    → (i : ℕ) → Places ((with_list st index l).lists i)
with_list-Places st index l all p i = elim (Bool-cases (i == index)) [
  | inl here ↦ rw here p
  | inr other ↦ rw other (all i)
]

abbrev pub rounds : ℕ → List ℕ → ℕ
rounds index [] = 2 * (65 - index) + 1
rounds index (x ∷ xs) = 2 * (65 - index) + 2

pub rounds-le : (index : ℕ) (l : List ℕ) → rounds index l ≤ 2 * (65 - index) + 2
rounds-le index [] = omega arith
rounds-le index (x ∷ xs) = omega arith

-- A search whose first round gives what a search from another state gives.
find_again :
    (st : Nvm) (q k : ℕ) (l : ℕ → List ℕ) {r r' : Run (Nvm × Option (ℕ × ℕ))}
    → r ≡ r'
    → Found (record st { lists = l }) q k r'
    → Found st q k r
find_again st q k l e f = record {
  lists = f.lists;
  found = f.found;
  result = e ∙ f.result;
  places = f.places;
  fits = f.fits;
}

find_run-some :
    (fuel : ℕ) (st : Nvm) (need index x : ℕ) (xs rest : List ℕ) (run : ℕ × ℕ)
    → leb index nr_sizes ≡ true
    → st.lists index ≡ x ∷ xs
    → try_list st need (st.lists index) ≡ ok (rest, some run)
    → find_run (suc fuel) st need index ≡ ok (with_list st index rest, some run)
unfolding find_run
find_run-some fuel st need index x xs rest run within full tried = rw (within, full, tried) refl

find_run-none :
    (fuel : ℕ) (st : Nvm) (need index x : ℕ) (xs rest : List ℕ)
    → leb index nr_sizes ≡ true
    → st.lists index ≡ x ∷ xs
    → try_list st need (st.lists index) ≡ ok (rest, none)
    → find_run (suc fuel) st need index ≡ find_run fuel (with_list st index rest) need index
unfolding find_run
find_run-none fuel st need index x xs rest within full tried = rw (within, full, tried) refl

pub find_run-Found :
    (fuel : ℕ) (st : Nvm) (q k index : ℕ)
    → Covers st.bitmap q
    → st.zone ≡ base_size * q
    → 0 < k
    → ((i : ℕ) → Places (st.lists i))
    → rounds index (st.lists index) ≤ fuel
    → Found st q k (find_run fuel st (base_size * k) index)
unfolding find_run
find_run-Found zero st q k index covers zone pos all enough =
    absurd (none_left (st.lists index) enough)
  where
    none_left : (l : List ℕ) → rounds index l ≤ 0 → ⊥
    none_left [] h = omega arith
    none_left (x ∷ xs) h = omega arith
find_run-Found (suc fuel) st q k index covers zone pos all enough =
    elim (Bool-cases (leb index nr_sizes)) [
      | inr past ↦ record {
        lists = st.lists;
        found = none;
        result = rw past refl;
        places = all;
        fits = tt;
      }
      | inl within ↦
          let low : index ≤ 64 = ground arith in
          elim (List-cases (st.lists index)) [
            | inl empty ↦ find_again st q k st.lists (rw (within, empty) refl) (
                find_run-Found fuel st q k (index + 1) covers zone pos all
                  (omega (arith, rounds-le (index + 1) (st.lists (index + 1)), rw empty at enough)))
            | inr (x, xs, full) ↦
                let tried = try_list-Tried st q covers zone k pos (st.lists index) (all index) in
                elim (Option-cases tried.found) [
                  | inr (run, e) ↦ record {
                    lists = (with_list st index tried.rest).lists;
                    found = some run;
                    result =
                        find_run-some fuel st (base_size * k) index x xs tried.rest run within full
                          (tried.result ∙ ap (λ y. ok (tried.rest, y)) e);
                    places = with_list-Places st index tried.rest all tried.places;
                    fits = subst (FitsOption (is_clear st.bitmap) q k) e tried.fits;
                  }
                  | inl e ↦
                      find_again st q k (with_list st index tried.rest).lists
                        (find_run-none fuel st (base_size * k) index x xs tried.rest within full
                          (tried.result ∙ ap (λ y. ok (tried.rest, y)) e))
                        (find_run-Found fuel (with_list st index tried.rest) q k index covers zone
                          pos (with_list-Places st index tried.rest all tried.places)
                          (fewer tried.rest (tried.used_up e) (rw full at enough)))
                ]
          ]
    ]
  where
    own : (index : ℕ) → (index == index) ≡ true
    own index = ground arith

    fewer :
        (rest : List ℕ)
        → rest ≡ []
        → 2 * (65 - index) + 2 ≤ suc fuel
        → rounds index ((with_list st index rest).lists index) ≤ fuel
    fewer rest e h = rw (own index, e) (omega arith)
