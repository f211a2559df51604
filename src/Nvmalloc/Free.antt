-- ===== src/Nvmalloc/Free.antt =====
-- inc/nvmalloc/nvmalloc.c: the state of the allocator, the lists of free places, and the memory.
use zalloc.Base.{
  ℕ, zero, suc, ◌+◌, ◌-◌, ◌*◌, ◌/◌, ◌%◌, ◌^◌, Bool, Option, none, some, List, [], ◌∷◌, ◌++◌, Run,
  ok, fault, out_of_fuel, ◌>>=◌, ltb, leb, ◌==◌, if◌then◌else◌,
}
use zalloc.Nvmalloc.{base_size, nr_sizes, Bitmap, is_free_forward, is_free_backward, get_best_fit}

abbrev pub page_bytes : ℕ
page_bytes = 4096

abbrev pub new_alloc_pages : ℕ
new_alloc_pages = 1024

abbrev pub nil : ℕ
nil = 2 ^ 64 - 1

-- Every address is its distance from `start_address`: `zone` stands for `free_zone`, `top` for
-- `end_address`. `lists` are the free lists from their heads to the nodes of `free_list_ends`. For
-- the block at an address, `word` is the bit pattern of its `size` field, and `next` and `time`
-- are the other fields that a block has while it waits.
pub record Nvm : Type 0 where
  pub zone : ℕ
  pub top : ℕ
  pub pages : ℕ
  pub bitmap : Bitmap
  pub lists : ℕ → List ℕ
  pub word : ℕ → ℕ
  pub next : ℕ → ℕ
  pub time : ℕ → ℕ
  pub head : ℕ
  pub tail : ℕ
  pub wait : ℕ

abbrev pub put : (ℕ → ℕ) → ℕ → ℕ → ℕ → ℕ
put f p v q = if p == q then v else f q

abbrev pub get_word : Nvm → ℕ → Run ℕ
get_word st p = if leb (p + 8) st.top then ok (st.word p) else fault

abbrev pub set_word : Nvm → ℕ → ℕ → Run Nvm
set_word st p v = if leb (p + 8) st.top then ok (record st { word = put st.word p v }) else fault

-- A new node at the end of the list for a size: `free_lists` has `NR_SIZES + 1` elements. Its `malloc`
-- is taken to succeed.
abbrev pub push_hint : Nvm → (size position : ℕ) → Run Nvm
push_hint st size position =
    let index = get_best_fit size in
    if leb index nr_sizes
    then ok (record st {
      lists = λ i. if i == index then st.lists i ++ (position ∷ []) else st.lists i;
    })
    else fault

-- The loop that finds how many pages to ask for: the product is an `uint32_t`.
unfoldable pub more_pages : ℕ → (size new_pages : ℕ) → Run ℕ
more_pages zero size new_pages = out_of_fuel
more_pages (suc k) size new_pages =
    let rest = more_pages k size (new_pages + 1) in
    if ltb (new_pages * page_bytes % 2 ^ 32) size then rest else ok new_pages

-- `mapped` says whether `mmap` gives the memory at `end_address`, `got` whether `realloc` gives the
-- new bitmap, which the code does not test. A result of -1 is `none`.
unfoldable pub get_more_memory : (mapped got : Bool) → Nvm → ℕ → Run (Option Nvm)
get_more_memory mapped got st size = do
  new_pages ← more_pages (size / page_bytes + 2) size new_alloc_pages
  let bytes = new_pages * page_bytes % 2 ^ 32
  let old = st.bitmap
  let bitmap : Bitmap = record {
    size = old.size + bytes / base_size / 8;
    bytes = λ i. if ltb i old.size then old.bytes i else 0;
  }
  let grown : Nvm = record st {
    top = st.top + bytes;
    pages = (st.pages + new_pages) % 2 ^ 32;
    bitmap = bitmap;
  }
  if mapped then (if got then ok (some grown) else fault) else ok none

-- The `do` loop over one list: the places left, and the first run of free units that is large
-- enough, with its size. Each place may be stale, so the run around it is counted anew.
unfoldable pub try_list : Nvm → (need : ℕ) → List ℕ → Run (List ℕ × Option (ℕ × ℕ))
try_list st need [] = ok ([], none)
try_list st need (position ∷ rest) = do
  ahead ← is_free_forward st.bitmap st.zone position
  back ← is_free_backward st.bitmap st.zone position
  let space = (ahead * base_size % 2 ^ 32 + back * base_size % 2 ^ 32) % 2 ^ 32
  let location = (position + 2 ^ 64 - back * base_size % 2 ^ 32) % 2 ^ 64
  let later = try_list st need rest
  if leb need space then ok (rest, some (location, space)) else later

-- `lists` with another list at an index
abbrev pub with_list : Nvm → ℕ → List ℕ → Nvm
with_list st index l = record st { lists = λ i. if i == index then l else st.lists i }

-- The `while` over the lists. A list that is used up is met once more, and skipped.
unfoldable pub find_run : ℕ → Nvm → (need index : ℕ) → Run (Nvm × Option (ℕ × ℕ))
find_run zero st need index = out_of_fuel
find_run (suc k) st need index =
    let skip = find_run k st need (index + 1) in
    let look = try_list st need (st.lists index) >>= λ (rest, found).
    let st = with_list st index rest in
    let again = find_run k st need index in
    elim found [ none ↦ again | some run ↦ ok (st, some run) ] in
    if leb index nr_sizes
    then elim (st.lists index) [ [] ↦ skip | position ∷ rest ↦ look ]
    else ok (st, none)

abbrev pub actual_size : (size : ℕ) → ℕ
actual_size size =
    let index = get_best_fit size in
    if ltb index nr_sizes
    then (index + 1) * base_size
    else if size % base_size == 0
    then size
    else ((size - size % base_size) + base_size) % 2 ^ 32
