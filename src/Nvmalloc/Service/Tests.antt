-- ===== src/Nvmalloc/Service/Tests.antt =====
-- Calls on four fresh pages, with a sum in place of the checksum.
use zalloc.Base.{
  leb, Run, ok, Option, some, ◌≤◌, ℕ, ◌+◌, ◌-◌, ◌*◌, ◌<◌, ==_true, ◌%◌, ◌^◌, ◌≡◌, refl, true, false,
  ◌⊎◌, [], ◌∷◌, ◌++◌, arith, Bool-cases, inl, inr, ◌==◌, if◌then◌else◌,
}
use zalloc.Nvmalloc.{base_size, paint, get_best_fit, make_one}
use zalloc.Nvmalloc.Free.{Nvm, find_run}
use zalloc.Nvmalloc.Heap.{
  header_size, nvmalloc_init, nvmalloc, nvfree, increment_time, get_free_location, extend_zone,
}
use zalloc.Nvmalloc.Header.{negate, crc_compute}
use zalloc.Nvmalloc.Marks.{is_clear}
use zalloc.Nvmalloc.Tiles.{live, held, total}
use zalloc.Nvmalloc.Block.{units_for}
use zalloc.Nvmalloc.Blocks.{blocks, times, waits}
use zalloc.Nvmalloc.Service.{IsHeap}
use zalloc.Nvmalloc.Service.Wake.{IsDue, Woken, increment_time-Woken}
use zalloc.Nvmalloc.Service.Alloc.{Allocated, Denied, nvmalloc-Allocated}
use zalloc.Nvmalloc.Service.Free.{nvfree-Woken}
use zalloc.Nvmalloc.Service.Session.{Session, begin, gets, Session-apart}

abbrev sum : ℕ → ℕ → ℕ
sum a b = (a + b) % 2 ^ 32

abbrev blank : Nvm
blank = record {
  zone = 0;
  top = 0;
  pages = 0;
  bitmap = record { size = 0; bytes = λ i. 0 };
  lists = λ i. [];
  word = λ p. 0;
  next = λ p. 0;
  time = λ p. 0;
  head = 0;
  tail = 0;
  wait = 0;
}

-- The state after the start.
abbrev fresh : Nvm
fresh = record {
  zone = 0;
  top = 16384;
  pages = 4;
  bitmap = record { size = 32; bytes = λ i. 0 };
  lists = λ i. [];
  word = λ p. 0;
  next = λ p. 0;
  time = λ p. 0;
  head = 2 ^ 64 - 1;
  tail = 2 ^ 64 - 1;
  wait = 0;
}

fresh-IsHeap : IsHeap sum fresh [] []
unfolding total blocks times waits
fresh-IsHeap = record {
  laid_out = record {
    bitmap = record { narrow = λ i. omega arith; small = omega arith };
    aligned = refl;
    zone = refl;
    within = omega arith;
    small = omega arith;
    tiles = tt;
    places = λ i. tt;
  };
  linked = (refl, refl);
  waiting = λ x. refl;
  closed = tt;
}

nvmalloc-Allocated_example :
    Allocated sum 0
      (IsDue sum 5 fresh)
      (blocks 0 [])
      []
      (units_for (1000 + header_size))
      (nvmalloc sum true true 5 fresh 1000)
    ⊎ Denied sum 0 true [] [] (nvmalloc sum true true 5 fresh 1000)
nvmalloc-Allocated_example =
    nvmalloc-Allocated sum true 5 fresh [] [] 1000 fresh-IsHeap (omega arith)

-- One block of two units, in use or waiting.
abbrev two_units : (header link : ℕ) → Nvm
two_units header link = record fresh {
  zone = 128;
  bitmap = record { size = 32; bytes = λ i. if i == 0 then 3 else 0 };
  word = λ p. header;
  head = link;
  tail = link;
}

used_bits : (header link x : ℕ) → x < 2 → is_clear (two_units header link).bitmap x ≡ false
used_bits header link x h = elim (Bool-cases (x == 0)) [
  | inl zero_th ↦ rw (==_true x 0 zero_th) refl
  | inr first ↦ let one : x ≡ 1 = ground arith in rw one refl
]

narrow_bytes : (i : ℕ) → (if i == 0 then 3 else 0) < 256
narrow_bytes i = ground arith

in_use-IsHeap : IsHeap sum (two_units (crc_compute sum 0 128) (2 ^ 64 - 1)) (live 2 ∷ []) []
unfolding total blocks times waits
in_use-IsHeap = record {
  laid_out = record {
    bitmap = record { narrow = narrow_bytes; small = omega arith };
    aligned = refl;
    zone = refl;
    within = omega arith;
    small = omega arith;
    tiles = (
      omega arith,
      λ x low high. used_bits (crc_compute sum 0 128) (2 ^ 64 - 1) x high,
      refl,
      tt,
    );
    places = λ i. tt;
  };
  linked = (refl, refl);
  waiting = λ x. refl;
  closed = refl;
}

nvfree-Woken_example :
    Woken sum 0
      (leb ((5 + 0) % 2 ^ 64) 6 ≡ true)
      (blocks 0 ([] ++ (held 2 ∷ [])))
      ([] ++ (total [] ∷ []))
      (nvfree sum 5 6
        (two_units (crc_compute sum 0 128) (2 ^ 64 - 1))
        (base_size * total [] + header_size))
nvfree-Woken_example =
    nvfree-Woken sum 5 6 (two_units (crc_compute sum 0 128) (2 ^ 64 - 1)) [] 2 [] [] in_use-IsHeap

waiting-IsHeap : IsHeap sum (two_units (negate (crc_compute sum 0 129)) 0) (held 2 ∷ []) (0 ∷ [])
unfolding total blocks times waits
waiting-IsHeap = record {
  laid_out = record {
    bitmap = record { narrow = narrow_bytes; small = omega arith };
    aligned = refl;
    zone = refl;
    within = omega arith;
    small = omega arith;
    tiles =
        (omega arith, λ x low high. used_bits (negate (crc_compute sum 0 129)) 0 x high, refl, tt);
    places = λ i. tt;
  };
  linked = (refl, refl);
  waiting = λ x. refl;
  closed = refl;
}

increment_time-Woken_example :
    Woken sum 0
      (IsDue sum 7 (two_units (negate (crc_compute sum 0 129)) 0))
      (blocks 0 (held 2 ∷ []))
      (0 ∷ [])
      (increment_time sum 7 (two_units (negate (crc_compute sum 0 129)) 0))
increment_time-Woken_example =
    increment_time-Woken sum 7 (two_units (negate (crc_compute sum 0 129)) 0) (held 2 ∷ []) (0 ∷ [])
      waiting-IsHeap

-- The states of a run: the start, and blocks for 100 and for 50 bytes.
abbrev begun : Run Nvm → Nvm
begun (ok st) = st
begun r = blank

abbrev given : Run (Option ℕ × Nvm) → Nvm
given (ok (p, st)) = st
given r = blank

abbrev start : Nvm
start = begun (nvmalloc_init true 4 0 blank)

abbrev one_block : Nvm
one_block = given (nvmalloc sum true true 1 start 100)

abbrev two_blocks : Nvm
two_blocks = given (nvmalloc sum true true 2 one_block 50)

first_call : nvmalloc sum true true 1 start 100 ≡ ok (some (base_size * 0 + header_size), one_block)
unfolding nvmalloc_init nvmalloc paint get_best_fit make_one crc_compute get_free_location find_run
    extend_zone increment_time
first_call = refl

second_call :
    nvmalloc sum true true 2 one_block 50 ≡ ok (some (base_size * 2 + header_size), two_blocks)
unfolding nvmalloc_init nvmalloc paint get_best_fit make_one crc_compute get_free_location find_run
    extend_zone increment_time
second_call = refl

start_room : start.top + 100 + 2 ^ 24 + header_size < 2 ^ 32
unfolding nvmalloc_init
start_room = omega arith

one_room : one_block.top + 50 + 2 ^ 24 + header_size < 2 ^ 32
unfolding nvmalloc_init nvmalloc paint get_best_fit make_one crc_compute get_free_location find_run
    extend_zone increment_time
one_room = omega arith

fresh_start : nvmalloc_init true 4 0 blank ≡ ok start
unfolding nvmalloc_init
fresh_start = refl

run :
    Session sum two_blocks
      ((2, units_for (50 + header_size)) ∷ (0, units_for (100 + header_size)) ∷ [])
run =
    gets
      (gets (begin 4 0 blank start (omega arith) fresh_start) true 1 100 0 one_block start_room
        first_call)
      true 2 50 2 two_blocks one_room second_call

Session-apart_example :
    ((2 + 1 ≤ 0) ⊎ (0 + 2 ≤ 2))
    × (base_size * (2 + 1) ≤ two_blocks.top)
    × (base_size * (0 + 2) ≤ two_blocks.top)
Session-apart_example = Session-apart sum two_blocks [] [] [] 2 1 0 2 run
