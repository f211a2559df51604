-- ===== src/Nvmalloc/Print/Lists.antt =====
-- What `nvmalloc_print` prints of the free lists.
use zalloc.Base.{ℕ, zero, suc, ◌+◌, ◌*◌, ◌/◌, ◌≡◌, refl, sym, ap, ◌∙◌, List, [], ◌∷◌, ◌++◌, arith}
use zalloc.Nvmalloc.{base_size}
use zalloc.Nvmalloc.Free.{Nvm}
use zalloc.Nvmalloc.Search.Lists.{Places}
use zalloc.Nvmalloc.Print.{Printed, list_name, position_of, list_end, print_positions, print_lists}

-- The addresses of units.
pub scaled : List ℕ → List ℕ
scaled [] = []
scaled (u ∷ us) = base_size * u ∷ scaled us

-- The units that a list of places names.
pub units_of : (positions : List ℕ) → Places positions → List ℕ
units_of [] h = []
units_of (position ∷ rest) ((u, at, low), h) = u ∷ units_of rest h

pub scaled-units_of :
    (positions : List ℕ) (h : Places positions) → positions ≡ scaled (units_of positions h)
unfolding scaled units_of
scaled-units_of [] h = refl
scaled-units_of (position ∷ rest) ((u, at, low), h) = rw (at, ← scaled-units_of rest h) refl

unit_tokens : List ℕ → List Printed
unit_tokens [] = list_end ∷ []
unit_tokens (u ∷ us) = position_of u ∷ unit_tokens us

-- The lists 0 to `n - 1` in order: the number of the list, the unit of each place, and the end.
pub list_tokens : (ℕ → List ℕ) → (n : ℕ) → List Printed
list_tokens us zero = []
list_tokens us (suc n) = list_tokens us n ++ (list_name n ∷ unit_tokens (us n))

print_positions-scaled : (us : List ℕ) → print_positions (scaled us) ≡ unit_tokens us
unfolding print_positions scaled unit_tokens
print_positions-scaled [] = refl
print_positions-scaled (u ∷ us) =
    let unit : base_size * u / base_size ≡ u = omega arith in
    rw (unit, print_positions-scaled us) refl

append_nil : (l : List Printed) → l ++ [] ≡ l
append_nil [] = refl
append_nil (x ∷ l) = ap (◌∷◌ x) (append_nil l)

append_assoc : (a b c : List Printed) → (a ++ b) ++ c ≡ a ++ (b ++ c)
append_assoc [] b c = refl
append_assoc (x ∷ a) b c = ap (◌∷◌ x) (append_assoc a b c)

-- The loop with one more round at its end.
print_lists-snoc :
    (st : Nvm) (i n : ℕ)
    → print_lists st i (suc n)
      ≡ print_lists st i n ++ (list_name (i + n) ∷ print_positions (st.lists (i + n)))
unfolding print_lists
print_lists-snoc st i zero =
    let same : i + 0 ≡ i = omega arith in
    rw same (ap (◌∷◌ (list_name i)) (append_nil (print_positions (st.lists i))))
print_lists-snoc st i (suc n) =
    let next : i + suc n ≡ i + 1 + n = omega arith in
    rw next (
      ap (◌∷◌ (list_name i)) (
        ap (λ l. print_positions (st.lists i) ++ l) (print_lists-snoc st (i + 1) n)
        ∙ sym (
            append_assoc (print_positions (st.lists i)) (print_lists st (i + 1) n)
              (list_name (i + 1 + n) ∷ print_positions (st.lists (i + 1 + n))))))

pub print_lists-tokens :
    (st : Nvm) (us : ℕ → List ℕ) (n : ℕ)
    → ((i : ℕ) → st.lists i ≡ scaled (us i))
    → print_lists st 0 n ≡ list_tokens us n
unfolding list_tokens
print_lists-tokens st us zero same = unfold print_lists in refl
print_lists-tokens st us (suc n) same =
    let at : 0 + n ≡ n = omega arith in
    let last : print_positions (st.lists n) ≡ unit_tokens (us n) =
      ap print_positions (same n) ∙ print_positions-scaled (us n) in
    print_lists-snoc st 0 n ∙ rw (at, print_lists-tokens st us n same, last) refl
