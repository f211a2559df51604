-- ===== src/Nvmalloc/Heap.antt =====
-- inc/nvmalloc/nvmalloc.c: `nvmalloc`, `nvfree` and what they call. `crc` is the instruction
-- `_mm_crc32_u32`; the time stamps that `rdtsc_` gives are arguments.
mod Tests
use zalloc.Base.{
  ℕ, zero, suc, ◌+◌, ◌-◌, ◌*◌, ◌/◌, ◌%◌, ◌^◌, Bool, true, false, ◌&&◌, ◌||◌, Option, none, some, [],
  Run, ok, fault, abort, out_of_fuel, ◌>>=◌, ltb, leb, ◌==◌, if◌then◌else◌,
}
use zalloc.Nvmalloc.{
  base_size, nr_sizes, Bitmap, is_free_forward, is_free_backward, make_one, make_zero, get_best_fit,
}
use zalloc.Nvmalloc.Header.{negate, crc_compute, crc_get_size}
use zalloc.Nvmalloc.Free.{
  page_bytes, nil, Nvm, put, get_word, set_word, push_hint, get_more_memory, find_run, actual_size,
}

abbrev pub header_size : ℕ
header_size = 8

-- `mmap` gives memory here: without it the code goes on, and the first access is out of bounds. The
-- `calloc` of the bitmap, which is not tested, gives memory where `got`.
unfoldable pub nvmalloc_init : (got : Bool) → (nr_pages free_wait : ℕ) → Nvm → Run Nvm
nvmalloc_init got nr_pages free_wait old =
    let bytes = nr_pages * page_bytes % 2 ^ 32 in
    let bitmap : Bitmap = record {
      size = if got then bytes / base_size / 8 else 0;
      bytes = λ i. 0;
    } in
    ok (record old {
      zone = 0;
      top = bytes;
      pages = nr_pages;
      bitmap = bitmap;
      lists = λ i. [];
      head = nil;
      tail = nil;
      wait = free_wait;
    })

module _ (crc : ℕ → ℕ → ℕ) where
  -- The loop over the headers of a run of free units: whether one of them begins `need` bytes from
  -- the start. A header that is not negative is only reported; a wrong checksum ends the program.
  unfoldable pub check_run : ℕ → Nvm → (space need n ptr : ℕ) → (exact_fit : Bool) → Run Bool
  check_run zero st space need n ptr exact_fit = out_of_fuel
  check_run (suc k) st space need n ptr exact_fit =
      let step = get_word st ptr >>= λ hd.
      let crt_size = crc_get_size (negate hd) in
      let n = (n + 2 ^ 32 - crt_size) % 2 ^ 32 in
      let exact_fit = exact_fit || (space + 2 ^ 32 - n) % 2 ^ 32 == need in
      let rest = check_run k st space need n (ptr + crt_size) exact_fit in
      if crc_compute crc ptr crt_size == negate hd then rest else abort in
      if n == 0 then ok exact_fit else step

  -- What is done with what is left of a run once its first `need` bytes are taken.
  unfoldable pub carve : Nvm → (need location space : ℕ) → (exact_fit : Bool) → Run Nvm
  carve st need location space exact_fit =
      let rest = location + need in
      let sealed = set_word st rest (negate (crc_compute crc rest (space - need))) in
      let more = (if exact_fit then ok st else sealed) >>= λ st. push_hint st (space - need) rest in
      if ltb need space then more else ok st

  -- The end of `getFreeLocation` where the lists have nothing: the zone past all blocks.
  unfoldable pub extend_zone : (mapped got : Bool) → Nvm → (need : ℕ) → Run (Option ℕ × Nvm)
  extend_zone mapped got st need = do
    grown ← if ltb st.top (st.zone + need) then get_more_memory mapped got st need else ok (some st)
    elim grown [
      | none ↦ ok (none, st)
      | some st ↦ ok (some st.zone, record st { zone = st.zone + need })
    ]

  -- From a run that was found to the place of the block in it.
  unfoldable pub use_run : Nvm → (need location space : ℕ) → Run (ℕ × Nvm)
  use_run st need location space = do
    exact_fit ← check_run (space / base_size + 1) st space need space location false
    st ← carve st need location space exact_fit
    ok (location, st)

  -- The bits of the block's units are set last. The list at index -1, for a size of 0, is no element
  -- of the array.
  unfoldable pub get_free_location : (mapped got : Bool) → Nvm → (size : ℕ) → Run (Option ℕ × Nvm)
  get_free_location mapped got st size =
      let need = actual_size size in
      let index = get_best_fit size in
      let place = find_run 132 st need index >>= λ (st, found). elim found [
        | some run ↦ use_run st need run.0 run.1 >>= λ (location, st). ok (some location, st)
        | none ↦ extend_zone mapped got st need
      ] in
      let search = place >>= λ (found, st). elim found [
        | none ↦ ok (none, st)
        | some location ↦ make_one st.bitmap location (need / base_size) >>= λ bitmap.
            ok (some location, record st { bitmap = bitmap })
      ] in
      if ltb index (2 ^ 31) then search else fault

  unfoldable pub insert_free_location : Nvm → (location size_forward total_size : ℕ) → Run Nvm
  insert_free_location st location size_forward total_size =
      let merged =
        set_word (record st { zone = location + size_forward - total_size }) location 0 in
      let listed = (do
        st ← set_word st location (negate (crc_compute crc location size_forward))
        st ← push_hint st total_size (location + size_forward - total_size)
        if size_forward == total_size then ok st else push_hint st size_forward location) in
      if leb st.zone (location + size_forward) && ltb location st.zone then merged else listed

  -- The two sizes: from the location on, and of the whole run of free units around it.
  unfoldable pub extend_free_location : Nvm → (location size : ℕ) → Run (ℕ × ℕ × Nvm)
  extend_free_location st location size = do
    bitmap ← make_zero st.bitmap location (size / base_size)
    ahead ← is_free_forward bitmap st.zone location
    back ← is_free_backward bitmap st.zone location
    let size = ahead * base_size % 2 ^ 32
    ok (size, (size + back * base_size % 2 ^ 32) % 2 ^ 32, record st { bitmap = bitmap })

  -- A wrong header is only reported here.
  unfoldable pub put_in_dna_list : (now : ℕ) → Nvm → (location size : ℕ) → Run Nvm
  put_in_dna_list now st location size = do
    found ← get_word st location
    st ← set_word st location (negate (crc_compute crc location ((size + 1) % 2 ^ 32)))
    let st = record st { time = put st.time location now }
    if st.tail == nil
        then ok (record st { head = location; tail = location })
        else ok (record st { next = put st.next st.tail location; tail = location })

  -- The size in a waiting block's header is larger by 1; a wrong checksum is only reported.
  unfoldable pub increment_time : (now : ℕ) → Nvm → Run Nvm
  increment_time now st =
      let location = st.head in
      let rest =
        if st.head == st.tail
        then record st { head = nil; tail = nil }
        else record st { head = st.next location } in
      let release = (do
        hd ← get_word st location
        let size = (crc_get_size (negate hd) + 2 ^ 32 - 1) % 2 ^ 32
        (size, total, st) ← extend_free_location rest location size
        insert_free_location st location size total) in
      let due = leb ((st.time location + st.wait) % 2 ^ 64) now in
      let wake = if due then release else ok st in if st.head == nil then ok st else wake

  -- `size + sizeof(header)` has 64 bits, and the parameter that takes it 32.
  unfoldable pub nvmalloc :
      (mapped got : Bool) → (now : ℕ) → Nvm → (size : ℕ) → Run (Option ℕ × Nvm)
  nvmalloc mapped got now st size = do
    let whole = (size + header_size) % 2 ^ 32
    (found, st) ← get_free_location mapped got st whole
    elim found [
      | none ↦ ok (none, st)
      | some location ↦ do
        st ← set_word st location (crc_compute crc location (actual_size whole))
        st ← increment_time now st
        ok (some (location + header_size), st)
    ]

  -- A header that is not positive, or whose checksum is wrong, ends the program.
  unfoldable pub nvfree : (now later : ℕ) → Nvm → (addr : ℕ) → Run Nvm
  nvfree now later st addr = do
    let location = (addr + 2 ^ 64 - header_size) % 2 ^ 64
    hd ← get_word st location
    let size = crc_get_size hd
    let free = put_in_dna_list now st location size >>= λ st. increment_time later st
    if hd == 0 || leb (2 ^ 63) hd
        then abort
        else if crc_compute crc location size == hd
        then free
        else abort
