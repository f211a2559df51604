-- ===== src/Nvmalloc/Search/Lists.antt =====
-- `try_list`: each place of a list leads to the run around it.
use mathlib.Core.Path.{subst}
use zalloc.Base.{
  ℕ, ◌+◌, ◌-◌, ◌*◌, ◌%◌, ◌^◌, ◌≤◌, ◌<◌, ◌≡◌, refl, sym, ap, Bool, false, ◌⊎◌, inl, inr, List, [],
  ◌∷◌, ◌++◌, Option, none, some, Run, ok, leb, arith, Bool-cases,
}
use zalloc.Nvmalloc.{base_size, is_free_forward}
use zalloc.Nvmalloc.Marks.{is_clear}
use zalloc.Nvmalloc.Count.{Ahead, is_free_forward-Ahead}
use zalloc.Nvmalloc.Back.{is_free_backward-none}
use zalloc.Nvmalloc.Tiles.Edges.{RunAt}
use zalloc.Nvmalloc.Free.{Nvm, try_list}
use zalloc.Nvmalloc.Search.{Covers, is_free_backward-Before, around}

-- Every place of a list is a unit below 2^32 bytes.
abbrev pub Places : List ℕ → Type 0
Places [] = Unit
Places (position ∷ rest) = ((u : ℕ) × (position ≡ base_size * u) × (u < 2 ^ 26)) × Places rest

pub Places-append :
    (l : List ℕ) (u : ℕ) → Places l → u < 2 ^ 26 → Places (l ++ (base_size * u ∷ []))
Places-append [] u p h = ((u, refl, h), tt)
Places-append (x ∷ l) u (here, rest) h = (here, Places-append l u rest h)

-- A run of `k` units or more, as the code gives it.
pub record Fits (bits : ℕ → Bool) (q k : ℕ) (run : ℕ × ℕ) : Type 0 where
  pub from_unit : ℕ
  pub to_unit : ℕ
  pub location : run.0 ≡ base_size * from_unit
  pub space : run.1 ≡ base_size * (to_unit - from_unit)
  pub run_at : RunAt bits q from_unit to_unit
  pub enough : k ≤ to_unit - from_unit

abbrev pub FitsOption : (ℕ → Bool) → ℕ → ℕ → Option (ℕ × ℕ) → Type 0
FitsOption bits q k none = Unit
FitsOption bits q k (some run) = Fits bits q k run

pub record Tried (bits : ℕ → Bool) (q k : ℕ) (r : Run (List ℕ × Option (ℕ × ℕ))) : Type 0 where
  pub rest : List ℕ
  pub found : Option (ℕ × ℕ)
  pub result : r ≡ ok (rest, found)
  pub places : Places rest
  pub fits : FitsOption bits q k found
  pub used_up : (found ≡ none) → rest ≡ []

-- The sums of the code, where nothing wraps.
space_sum :
    (f b : ℕ)
    → f + b < 2 ^ 26
    → (f * base_size % 2 ^ 32 + b * base_size % 2 ^ 32) % 2 ^ 32 ≡ base_size * (f + b)
space_sum f b h = omega arith

place_sum :
    (u b : ℕ)
    → b ≤ u
    → u < 2 ^ 26
    → (base_size * u + 2 ^ 64 - b * base_size % 2 ^ 32) % 2 ^ 64 ≡ base_size * (u - b)
place_sum u b le h = omega arith

span : (u f b : ℕ) → b ≤ u → f + b ≡ u + f - (u - b)
span u f b h = omega arith

pub none_ahead :
    (f q u : ℕ) → q < u → (f ≡ 0) ⊎ (base_size * (u + f) < base_size * q + base_size) → f ≡ 0
none_ahead f q u h (inl e) = e
none_ahead f q u h (inr low) = absurd (omega arith)

pub ahead_le :
    (f q u : ℕ) → u ≤ q → (f ≡ 0) ⊎ (base_size * (u + f) < base_size * q + base_size) → u + f ≤ q
ahead_le f q u h (inl e) = omega arith
ahead_le f q u h (inr low) = omega arith

module _ (st : Nvm) (q : ℕ) (covers : Covers st.bitmap q) (zone : st.zone ≡ base_size * q) (k : ℕ)
    (pos : 0 < k) where
  Ahead-of :
      (u : ℕ)
      → u < 2 ^ 26
      → Ahead st.bitmap
          (base_size * q)
          u
          0
          (is_free_forward st.bitmap (base_size * q) (base_size * u))
  Ahead-of u h =
      is_free_forward-Ahead st.bitmap (base_size * q) u covers.bitmap (omega (arith, covers.room))
        (omega (arith, covers.small)) (omega arith)

  past_Tried :
      (u : ℕ) (rest : List ℕ)
      → u < 2 ^ 26
      → q < u
      → Tried (is_clear st.bitmap) q k (try_list st (base_size * k) rest)
      → Tried (is_clear st.bitmap) q k (try_list st (base_size * k) (base_size * u ∷ rest))
  unfolding try_list
  past_Tried u rest h past later =
      let ahead = Ahead-of u h in
      let none_here = none_ahead ahead.count q u past ahead.within in
      let back = is_free_backward-none st.bitmap (base_size * q) u (inl (omega arith)) in
      let small : leb (base_size * k) 0 ≡ false = ground arith in
      let count : 0 + ahead.count ≡ 0 = omega arith in
      record {
        rest = later.rest;
        found = later.found;
        result = rw (zone, ahead.result, count, back, small) later.result;
        places = later.places;
        fits = later.fits;
        used_up = later.used_up;
      }

  here_Tried :
      (u : ℕ) (rest : List ℕ)
      → u < 2 ^ 26
      → u ≤ q
      → Places rest
      → Tried (is_clear st.bitmap) q k (try_list st (base_size * k) rest)
      → Tried (is_clear st.bitmap) q k (try_list st (base_size * k) (base_size * u ∷ rest))
  unfolding try_list
  here_Tried u rest h low places later =
      let ahead = Ahead-of u h in
      let back = is_free_backward-Before st.bitmap q covers u low in
      let f = ahead.count in
      let b = back.count in
      let inside = ahead_le ahead.count q u low ahead.within in
      let sum = space_sum ahead.count back.count (omega (arith, back.within, covers.small)) in
      let place = place_sum u back.count back.within h in
      let none_before : 0 + ahead.count ≡ ahead.count = omega arith in
      elim (Bool-cases (leb (base_size * k) (base_size * (ahead.count + back.count)))) [
        | inl fits ↦ record {
          rest = rest;
          found = some (base_size * (u - back.count), base_size * (ahead.count + back.count));
          result = rw (zone, ahead.result, none_before, back.result, sum, fits, place) refl;
          places = places;
          fits = record {
            from_unit = u - back.count;
            to_unit = u + ahead.count;
            location = refl;
            space = ap (◌*◌ base_size) (span u ahead.count back.count back.within);
            run_at = around st.bitmap q covers u low ahead back (ground arith);
            enough =
                (let le : k ≤ ahead.count + back.count = ground arith in
                  omega (arith, back.within));
          };
          used_up = λ e. cc;
        }
        | inr short ↦ record {
          rest = later.rest;
          found = later.found;
          result = rw (zone, ahead.result, none_before, back.result, sum, short) later.result;
          places = later.places;
          fits = later.fits;
          used_up = later.used_up;
        }
      ]

  pub try_list-Tried :
      (l : List ℕ) → Places l → Tried (is_clear st.bitmap) q k (try_list st (base_size * k) l)
  unfolding try_list
  try_list-Tried [] p = record {
    rest = [];
    found = none;
    result = refl;
    places = tt;
    fits = tt;
    used_up = λ e. refl;
  }
  try_list-Tried (x ∷ rest) ((u, at, h), p) =
      let later = try_list-Tried rest p in
      subst (λ y. Tried (is_clear st.bitmap) q k (try_list st (base_size * k) (y ∷ rest))) (sym at)
        (elim (Bool-cases (leb u q)) [
          | inl low ↦ here_Tried u rest h (ground arith) p later
          | inr past ↦ past_Tried u rest h (ground arith) later
        ])
