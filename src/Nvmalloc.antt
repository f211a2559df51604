-- ===== src/Nvmalloc.antt =====
-- inc/nvmalloc/nvmalloc.c: the bitmap of used units, and the sizes.
pub mod Bits
pub mod Marks
pub mod Count
pub mod Back
pub mod Fit
pub mod Header
pub mod Free
pub mod Heap
pub mod Tiles
pub mod Search
pub mod Take
pub mod Block
pub mod Release
pub mod Print
pub mod Blocks
pub mod Lives
pub mod Service
mod Tests
use zalloc.Base.{
  ℕ, zero, suc, ◌+◌, ◌-◌, ◌*◌, ◌/◌, ◌%◌, ◌^◌, Bool, ◌&&◌, Run, ok, fault, out_of_fuel, ◌>>=◌,
  bit_or, bit_and, ltb, ◌==◌, if◌then◌else◌,
}

abbrev pub base_size : ℕ
base_size = 64

abbrev pub nr_sizes : ℕ
nr_sizes = 4 * 1024 / base_size

-- `bitmap` and `bitmap_size`
pub record Bitmap : Type 0 where
  pub size : ℕ
  pub bytes : ℕ → ℕ

abbrev pub get_byte : Bitmap → ℕ → Run ℕ
get_byte bm i = if ltb i bm.size then ok (bm.bytes i) else fault

abbrev pub set_byte : Bitmap → ℕ → ℕ → Run Bitmap
set_byte bm i v =
    if ltb i bm.size
    then ok (record bm { bytes = λ j. if i == j then v else bm.bytes j })
    else fault

-- Where the unit of a location has its bit: `(location / BASE_SIZE) >> 3` as an `unsigned`, and
-- `1 << ((location / BASE_SIZE) & 7)`.
abbrev pub first_index : ℕ → ℕ
first_index location = location / base_size / 8 % 2 ^ 32

abbrev pub first_mask : ℕ → ℕ
first_mask location = 2 ^ (location / base_size % 8)

abbrev pub next_index : ℕ → ℕ → ℕ
next_index index mask = if mask == 128 then (index + 1) % 2 ^ 32 else index

abbrev pub next_mask : ℕ → ℕ
next_mask mask = if mask == 128 then 1 else mask * 2

-- The loop of `makeOne` and `makeZero`, which differ in what they make of a byte and a mask.
unfoldable pub paint : (ℕ → ℕ → ℕ) → ℕ → Bitmap → (index mask : ℕ) → Run Bitmap
paint op zero bm index mask = ok bm
paint op (suc k) bm index mask = do
  byte ← get_byte bm index
  bm ← set_byte bm index (op byte mask)
  paint op k bm (next_index index mask) (next_mask mask)

unfoldable pub make_one : Bitmap → (location size : ℕ) → Run Bitmap
unfolding paint
make_one bm location size =
    paint (λ byte mask. bit_or byte mask) size bm (first_index location) (first_mask location)

-- The low 8 bits of `~mask` are those of 255 - mask.
unfoldable pub make_zero : Bitmap → (location size : ℕ) → Run Bitmap
unfolding paint
make_zero bm location size =
    paint (λ byte mask. bit_and byte (255 - mask)) size bm (first_index location)
      (first_mask location)

-- The `while` of `isFreeForward`
unfoldable pub forward : ℕ → Bitmap → (end n location index mask : ℕ) → Run ℕ
forward zero bm end n location index mask = out_of_fuel
forward (suc k) bm end n location index mask =
    let rest =
      forward k bm end ((n + 1) % 2 ^ 32) ((location + base_size) % 2 ^ 64) (next_index index mask)
        (next_mask mask) in
    let look = get_byte bm index >>= λ byte. if bit_and byte mask == 0 then rest else ok n in
    if ltb location end then look else ok n

-- `end` is the distance from `start_address` to `free_zone`.
unfoldable pub is_free_forward : Bitmap → (end location : ℕ) → Run ℕ
unfolding forward
is_free_forward bm end location =
    forward (end / base_size + 2) bm end 0 location (first_index location) (first_mask location)

abbrev pub prev_index : ℕ → ℕ → ℕ
prev_index index mask = if mask == 1 then index - 1 else index

abbrev pub prev_mask : ℕ → ℕ
prev_mask mask = if mask == 1 then 128 else mask / 2

-- The `while` of `isFreeBackward`; `index` is an `int32_t`, whose test for a sign is on its top bit.
unfoldable pub backward : ℕ → Bitmap → (n index mask : ℕ) → Run ℕ
backward zero bm n index mask = out_of_fuel
backward (suc k) bm n index mask =
    let more = (n + 1) % 2 ^ 32 in
    let rest = backward k bm more (prev_index index mask) (prev_mask mask) in
    let next = if mask == 1 && index == 0 then ok more else rest in
    let look = get_byte bm index >>= λ byte. if bit_and byte mask == 0 then next else ok n in
    if ltb index (2 ^ 31) then look else ok n

unfoldable pub is_free_backward : Bitmap → (end location : ℕ) → Run ℕ
unfolding backward
is_free_backward bm end location =
    let index = first_index location in
    let mask = first_mask location in
    let run = backward (location / base_size + 1) bm 0 (prev_index index mask) (prev_mask mask) in
    if ltb end location then ok 0 else if mask == 1 && index == 0 then ok 0 else run

-- The index of the list of free blocks for a size; below one unit the `int` is 0 - 1 + 1.
unfoldable pub get_best_fit : ℕ → ℕ
get_best_fit size =
    if ltb (nr_sizes * base_size) size
    then nr_sizes
    else let index = (size / base_size + 2 ^ 32 - 1) % 2 ^ 32 in
      if size % base_size == 0 then index else (index + 1) % 2 ^ 32
