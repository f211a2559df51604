-- ===== src/Foot.antt =====
-- inc/foot.c: the C library's own `malloc` and `free`, found by `dlsym`.
pub mod Wrapped
mod Tests
use zalloc.Base.{ℕ, Bool, true, false, not, ◌||◌, Run, ◌>>◌, check, ◌==◌, if◌then◌else◌}

-- The variables of the file; 0 is NULL.
pub record Foot : Type 0 where
  pub origin_malloc : ℕ
  pub origin_free : ℕ
  pub is_foot_init : Bool

-- What `dlsym` gives for the two names, and whether `dlerror` has a message after each.
pub record Linker : Type 0 where
  pub malloc_at : ℕ
  pub malloc_error : Bool
  pub free_at : ℕ
  pub free_error : Bool

abbrev pub is_missing : (found : ℕ) → (error : Bool) → Bool
is_missing found error = found == 0 || error

-- The second half: `free`, and the flag.
unfoldable pub find_free : Linker → Foot → Foot
find_free w st =
    let found = record st { origin_free = w.free_at } in
    let sought =
      if is_missing w.free_at w.free_error then found else record found { is_foot_init = true } in
    if st.origin_free == 0 then sought else record st { is_foot_init = true }

unfoldable pub foot_init : Linker → Foot → Foot
unfolding find_free
foot_init w st =
    let found = record st { origin_malloc = w.malloc_at } in
    let sought = if is_missing w.malloc_at w.malloc_error then found else find_free w found in
    let first = if st.origin_malloc == 0 then sought else find_free w st in
    if st.is_foot_init then st else first

-- `call` is the call of the function at an address.
module _ {ℓ} {A : Type ℓ} (call : ℕ → ℕ → Run A) where
  unfoldable pub call_malloc : Foot → (size : ℕ) → Run A
  call_malloc st size = check (not (st.origin_malloc == 0)) >> call st.origin_malloc size

  unfoldable pub call_free : Foot → (ptr : ℕ) → Run A
  call_free st ptr = check (not (st.origin_free == 0)) >> call st.origin_free ptr
