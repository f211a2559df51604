-- ===== src/Nvmalloc/Print.antt =====
-- inc/nvmalloc/nvmalloc.c: `nvmalloc_print`, with a token for each thing that it prints.
pub mod Lists
pub mod Row
mod Tests
use zalloc.Base.{
  ℕ, zero, suc, ◌+◌, ◌-◌, ◌*◌, ◌/◌, ◌%◌, ◌^◌, Bool, true, false, List, [], ◌∷◌, ◌++◌, Run, ok,
  fault, ◌>>=◌, ltb, leb, ◌==◌, if◌then◌else◌,
}
use zalloc.Nvmalloc.{base_size, nr_sizes, Bitmap}
use zalloc.Nvmalloc.Bits.{clear}
use zalloc.Nvmalloc.Free.{Nvm, page_bytes}

-- `vacant_unit` is " _ ", `taken_unit` " o ", `zone_unit` " f ".
pub data Printed : Type 0 where
  newline : Printed
  vacant_unit : Printed
  taken_unit : Printed
  zone_unit : Printed
  list_name : ℕ → Printed
  position_of : ℕ → Printed
  list_end : Printed

-- What is printed for unit `i`: the bitmap is read below the zone only.
unfoldable pub unit_token : Nvm → ℕ → Run Printed
unit_token st i =
    let bit = if clear (st.bitmap.bytes (i / 8)) (i % 8) then ok vacant_unit else ok taken_unit in
    if leb (st.zone / base_size) i
    then ok zone_unit
    else if ltb (i / 8) st.bitmap.size
    then bit
    else fault

-- The loop over `n` units from `i` on.
unfoldable pub print_units : Nvm → (i n : ℕ) → Run (List Printed)
print_units st i zero = ok []
print_units st i (suc n) = do
  mark ← unit_token st i
  rest ← print_units st (i + 1) n
  ok ((if i % (page_bytes / base_size) == 0 then newline ∷ [] else []) ++ (mark ∷ rest))

unfoldable pub print_positions : List ℕ → List Printed
print_positions [] = list_end ∷ []
print_positions (position ∷ rest) = position_of (position / base_size) ∷ print_positions rest

unfoldable pub print_lists : Nvm → (i n : ℕ) → List Printed
unfolding print_positions
print_lists st i zero = []
print_lists st i (suc n) = list_name i ∷ (print_positions (st.lists i) ++ print_lists st (i + 1) n)

unfoldable pub nvmalloc_print : Nvm → Run (List Printed)
unfolding print_units print_lists
nvmalloc_print st = do
  units ← print_units st 0 (st.top / base_size)
  ok (units ++ (newline ∷ print_lists st 0 (nr_sizes + 1)))
