-- ===== src/Nvmalloc/Service/Start.antt =====
-- `nvmalloc_init`: a heap without blocks.
use zalloc.Base.{ℕ, ◌*◌, ◌/◌, ◌%◌, ◌^◌, ◌<◌, ◌≡◌, refl, true, [], Run, ok, arith}
use zalloc.Nvmalloc.{base_size, Bitmap}
use zalloc.Nvmalloc.Free.{page_bytes, nil, Nvm}
use zalloc.Nvmalloc.Heap.{nvmalloc_init}
use zalloc.Nvmalloc.Tiles.{total}
use zalloc.Nvmalloc.Blocks.{blocks, times, waits}
use zalloc.Nvmalloc.Service.{IsHeap}

pub record Begun (crc : ℕ → ℕ → ℕ) (pages wait : ℕ) (r : Run Nvm) : Type 0 where
  pub state : Nvm
  pub result : r ≡ ok state
  pub memory : state.top ≡ pages * page_bytes
  pub heap : IsHeap crc state [] []
  pub wait_is : state.wait ≡ wait

-- Where `calloc` gives the bitmap and the pages are fewer than 2^32 bytes, `nvmalloc_init` gives all
-- of them to a heap without blocks.
pub nvmalloc_init-Begun :
    (crc : ℕ → ℕ → ℕ) (pages wait : ℕ) (old : Nvm)
    → pages * page_bytes < 2 ^ 32
    → Begun crc pages wait (nvmalloc_init true pages wait old)
unfolding nvmalloc_init total blocks times waits
nvmalloc_init-Begun crc pages wait old small =
    let bytes : pages * page_bytes % 2 ^ 32 ≡ pages * page_bytes = omega arith in
    let bitmap : Bitmap = record { size = pages * page_bytes / base_size / 8; bytes = λ i. 0 } in
    record {
      state = record old {
        zone = 0;
        top = pages * page_bytes;
        pages = pages;
        bitmap = bitmap;
        lists = λ i. [];
        head = nil;
        tail = nil;
        wait = wait;
      };
      result = rw bytes refl;
      memory = refl;
      wait_is = refl;
      heap = record {
        laid_out = record {
          bitmap = record { narrow = λ i. omega arith; small = omega arith };
          aligned = omega arith;
          zone = refl;
          within = omega arith;
          small = small;
          tiles = tt;
          places = λ i. tt;
        };
        linked = (refl, refl);
        waiting = λ x. refl;
        closed = tt;
      };
    }
