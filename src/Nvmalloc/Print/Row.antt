-- ===== src/Nvmalloc/Print/Row.antt =====
-- What `nvmalloc_print` prints is the row of blocks.
use zalloc.Base.{
  ℕ, zero, suc, ◌+◌, ◌-◌, ◌*◌, ◌/◌, ◌%◌, ◌≤◌, ◌<◌, ◌≡◌, refl, true, false, List, [], ◌∷◌, ◌++◌, ok,
  ltb, leb, ◌==◌, if◌then◌else◌, arith, Bool-cases, inl, inr,
}
use zalloc.Nvmalloc.{base_size}
use zalloc.Nvmalloc.Free.{Nvm, page_bytes}
use zalloc.Nvmalloc.Marks.{is_clear}
use zalloc.Nvmalloc.Tiles.{Tile, units, is_vacant, total, Tiles}
use zalloc.Nvmalloc.Block.{IsLaidOut}
use zalloc.Nvmalloc.Print.Lists.{scaled, units_of, scaled-units_of, list_tokens, print_lists-tokens}
use zalloc.Nvmalloc.Print.{
  Printed, newline, vacant_unit, taken_unit, zone_unit, unit_token, print_units, nvmalloc_print,
}

-- `n` copies of a token, before others.
unfoldable pub copies_of : ℕ → Printed → List Printed → List Printed
copies_of zero t rest = rest
copies_of (suc n) t rest = t ∷ copies_of n t rest

abbrev pub block_token : Tile → Printed
block_token t = if is_vacant t then vacant_unit else taken_unit

-- The blocks in order, each with a token for each of its units, and then `n` units of the zone.
unfoldable pub row_tokens : List Tile → (n : ℕ) → List Printed
unfolding copies_of
row_tokens [] n = copies_of n zone_unit []
row_tokens (t ∷ l) n = copies_of (units t) (block_token t) (row_tokens l n)

-- With a line for each page, from unit `i` on.
unfoldable pub in_lines : (i : ℕ) → List Printed → List Printed
in_lines i [] = []
in_lines i (t ∷ rest) =
    (if i % (page_bytes / base_size) == 0 then newline ∷ [] else []) ++ (t ∷ in_lines (i + 1) rest)

used_unit :
    (st : Nvm) (x : ℕ) (t : Tile) (q : ℕ)
    → st.zone / base_size ≡ q
    → x < q
    → q ≤ st.bitmap.size * 8
    → is_clear st.bitmap x ≡ is_vacant t
    → unit_token st x ≡ ok (block_token t)
unfolding unit_token
used_unit st x t q edge low room same =
    let below : leb q x ≡ false = ground arith in
    let inside : ltb (x / 8) st.bitmap.size ≡ true = ground arith in
    rw (edge, below, inside, same)
      (elim (Bool-cases (is_vacant t)) [ inl free ↦ rw free refl | inr taken ↦ rw taken refl ])

zone_unit-token :
    (st : Nvm) (x q : ℕ) → st.zone / base_size ≡ q → q ≤ x → unit_token st x ≡ ok zone_unit
unfolding unit_token
zone_unit-token st x q edge high = let past : leb q x ≡ true = ground arith in rw (edge, past) refl

module _ (st : Nvm) where
  print_units-step :
      (t : Printed) (i m : ℕ) (rest : List Printed)
      → unit_token st i ≡ ok t
      → print_units st (i + 1) m ≡ ok (in_lines (i + 1) rest)
      → print_units st i (suc m) ≡ ok (in_lines i (t ∷ rest))
  unfolding print_units in_lines
  print_units-step t i m rest here later = rw (here, later) refl

  -- A loop whose first units have the token `t`.
  print_units-copies :
      (t : Printed) (k i n : ℕ) (rest : List Printed)
      → ((x : ℕ) → i ≤ x → x < i + k → unit_token st x ≡ ok t)
      → print_units st (i + k) n ≡ ok (in_lines (i + k) rest)
      → print_units st i (k + n) ≡ ok (in_lines i (copies_of k t rest))
  unfolding copies_of
  print_units-copies t zero i n rest each later =
      let none_more : i + 0 ≡ i = omega arith in
      let count : 0 + n ≡ n = omega arith in rw count (rw none_more at later)
  print_units-copies t (suc k) i n rest each later =
      let next : i + suc k ≡ i + 1 + k = omega arith in
      let count : suc k + n ≡ suc (k + n) = omega arith in
      rw count (
        print_units-step t i (k + n) (copies_of k t rest) (each i (omega arith) (omega arith)) (
          print_units-copies t k (i + 1) n rest (λ x low high. each x (omega arith) (omega arith))
            (rw next at later)))

  print_units-zone :
      (i n : ℕ)
      → ((x : ℕ) → i ≤ x → unit_token st x ≡ ok zone_unit)
      → print_units st i n ≡ ok (in_lines i (copies_of n zone_unit []))
  unfolding copies_of print_units in_lines
  print_units-zone i zero each = refl
  print_units-zone i (suc n) each =
      print_units-step zone_unit i n (copies_of n zone_unit []) (each i (omega arith))
        (print_units-zone (i + 1) n (λ x low. each x (omega arith)))

  print_units-row :
      (p n : ℕ) (l : List Tile)
      → ((x : ℕ) (t : Tile)
          → x < p + total l
          → p ≤ x
          → is_clear st.bitmap x ≡ is_vacant t
          → unit_token st x ≡ ok (block_token t))
      → ((x : ℕ) → p + total l ≤ x → unit_token st x ≡ ok zone_unit)
      → (crc : ℕ → ℕ → ℕ) → Tiles crc (is_clear st.bitmap) st.word p l
      → print_units st p (total l + n) ≡ ok (in_lines p (row_tokens l n))
  unfolding total row_tokens
  print_units-row p n [] each past crc t =
      let count : 0 + n ≡ n = omega arith in
      rw count (print_units-zone p n (λ x low. past x (omega arith)))
  print_units-row p n (s ∷ l) each past crc (pos, clear, head, rest) =
      let count : units s + total l + n ≡ units s + (total l + n) = omega arith in
      rw count (
        print_units-copies (block_token s) (units s) p (total l + n) (row_tokens l n)
          (λ x low high. each x s (omega arith) low (clear x low high))
          (print_units-row (p + units s) n l
            (λ x t low high same. each x t (omega arith) (omega arith) same)
            (λ x low. past x (omega arith)) crc rest))

-- On a row of blocks `nvmalloc_print` ends without a fault and prints the row: for each unit of each
-- block in turn whether the block is free, for the units from there to the end of the memory that they
-- are in the zone, a line for each page. After a line feed come the free lists 0 to 64 in order, each
-- with its number and the units that its places lie at.
pub nvmalloc_print-row :
    (crc : ℕ → ℕ → ℕ) (st : Nvm) (l : List Tile)
    → IsLaidOut crc st l
    → (us : ℕ → List ℕ) × ((i : ℕ) → st.lists i ≡ scaled (us i))
      × (nvmalloc_print st
          ≡ ok (
              in_lines 0 (row_tokens l (st.top / base_size - total l))
              ++ (newline ∷ list_tokens us 65)))
unfolding nvmalloc_print
nvmalloc_print-row crc st l laid =
    let edge : st.zone / base_size ≡ total l = omega (arith, laid.zone) in
    let whole : total l + (st.top / base_size - total l) ≡ st.top / base_size =
      omega (arith, laid.zone, laid.within) in
    let units =
      print_units-row st 0 (st.top / base_size - total l) l (below edge) (above edge) crc
        laid.tiles in
    let us : ℕ → List ℕ = λ i. units_of (st.lists i) (laid.places i) in
    let same : (i : ℕ) → st.lists i ≡ scaled (us i) =
      λ i. scaled-units_of (st.lists i) (laid.places i) in
    (us, same, rw (rw whole at units, print_lists-tokens st us 65 same) refl)
  where
    below :
        st.zone / base_size ≡ total l
        → (x : ℕ) (t : Tile) → x < 0 + total l
        → 0 ≤ x
        → is_clear st.bitmap x ≡ is_vacant t
        → unit_token st x ≡ ok (block_token t)
    below edge x t high low same =
        used_unit st x t (total l) edge (omega arith)
          (omega (arith, laid.zone, laid.within, laid.aligned)) same

    above :
        st.zone / base_size ≡ total l → (x : ℕ) → 0 + total l ≤ x → unit_token st x ≡ ok zone_unit
    above edge x low = zone_unit-token st x (total l) edge (omega arith)
