-- ===== src/Nvmalloc/Block/Steps.antt =====
-- `getFreeLocation` and its end from the results of what they call.
use zalloc.Base.{ℕ, ◌+◌, ◌/◌, ◌^◌, ◌≡◌, refl, Bool, true, false, none, some, ok, ltb}
use zalloc.Nvmalloc.{base_size, Bitmap, get_best_fit, make_one}
use zalloc.Nvmalloc.Free.{Nvm, find_run, actual_size, get_more_memory}
use zalloc.Nvmalloc.Heap.{use_run, extend_zone, get_free_location}

module _ (crc : ℕ → ℕ → ℕ) (mapped got : Bool) (st : Nvm) (size : ℕ)
    (low : ltb (get_best_fit size) (2 ^ 31) ≡ true) where
  pub get_free_location-run :
      (st' st'' : Nvm) (run : ℕ × ℕ) (location : ℕ) (bitmap : Bitmap)
      → find_run 132 st (actual_size size) (get_best_fit size) ≡ ok (st', some run)
      → use_run crc st' (actual_size size) run.0 run.1 ≡ ok (location, st'')
      → make_one st''.bitmap location (actual_size size / base_size) ≡ ok bitmap
      → get_free_location crc mapped got st size
        ≡ ok (some location, record st'' { bitmap = bitmap })
  unfolding get_free_location
  get_free_location-run st' st'' run location bitmap found used made =
      rw (low, found, used, made) refl

  pub get_free_location-zone :
      (st' st'' : Nvm) (location : ℕ) (bitmap : Bitmap)
      → find_run 132 st (actual_size size) (get_best_fit size) ≡ ok (st', none)
      → extend_zone crc mapped got st' (actual_size size) ≡ ok (some location, st'')
      → make_one st''.bitmap location (actual_size size / base_size) ≡ ok bitmap
      → get_free_location crc mapped got st size
        ≡ ok (some location, record st'' { bitmap = bitmap })
  unfolding get_free_location
  get_free_location-zone st' st'' location bitmap found used made = rw (low, found, used, made) refl

  pub get_free_location-none :
      (st' st'' : Nvm)
      → find_run 132 st (actual_size size) (get_best_fit size) ≡ ok (st', none)
      → extend_zone crc mapped got st' (actual_size size) ≡ ok (none, st'')
      → get_free_location crc mapped got st size ≡ ok (none, st'')
  unfolding get_free_location
  get_free_location-none st' st'' found used = rw (low, found, used) refl

module _ (crc : ℕ → ℕ → ℕ) (st : Nvm) (need : ℕ) where
  pub extend_zone-room :
      (mapped got : Bool)
      → ltb st.top (st.zone + need) ≡ false
      → extend_zone crc mapped got st need ≡ ok (some st.zone, record st { zone = st.zone + need })
  unfolding extend_zone
  extend_zone-room mapped got holds = rw holds refl

  pub extend_zone-more :
      (mapped got : Bool) (grown : Nvm)
      → ltb st.top (st.zone + need) ≡ true
      → get_more_memory mapped got st need ≡ ok (some grown)
      → extend_zone crc mapped got st need
        ≡ ok (some grown.zone, record grown { zone = grown.zone + need })
  unfolding extend_zone
  extend_zone-more mapped got grown short more = rw (short, more) refl

  pub extend_zone-none :
      (mapped got : Bool)
      → ltb st.top (st.zone + need) ≡ true
      → get_more_memory mapped got st need ≡ ok none
      → extend_zone crc mapped got st need ≡ ok (none, st)
  unfolding extend_zone
  extend_zone-none mapped got short more = rw (short, more) refl
