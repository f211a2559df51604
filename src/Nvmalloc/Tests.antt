-- ===== src/Nvmalloc/Tests.antt =====
-- The theorems on inc/nvmalloc/nvmalloc.c at concrete inputs: a bitmap of four bytes.
use zalloc.Base.{ℕ, ◌+◌, ◌*◌, ◌/◌, ◌≡◌, refl, false, ok, arith, ◌>>=◌}
use zalloc.Nvmalloc.{Bitmap, base_size, make_one, is_free_forward, is_free_backward}
use zalloc.Nvmalloc.Marks.{IsBitmap, Painted, make_one-Painted}
use zalloc.Nvmalloc.Count.{Ahead, is_free_forward-Ahead}
use zalloc.Nvmalloc.Back.{Behind, is_free_backward-Behind}
use zalloc.Nvmalloc.Header.{crc_compute, crc_get_size, xor_compute, xor_get_size}
use zalloc.Nvmalloc.Header.Fields.{Carries, crc_compute-Carries}

abbrev empty : Bitmap
empty = record { size = 4; bytes = λ _. 0 }

empty-IsBitmap : IsBitmap empty
empty-IsBitmap = record { narrow = λ i. omega arith; small = omega arith }

-- Ten units from unit 3 on are used: before them are three free ones, and from unit 13 on nineteen.
counted : (make_one empty (64 * 3) 10 >>= λ bm. is_free_backward bm 2048 (64 * 3)) ≡ ok 3
unfolding make_one is_free_backward
counted = refl

counted_ahead : (make_one empty (64 * 3) 10 >>= λ bm. is_free_forward bm 2048 (64 * 13)) ≡ ok 19
unfolding make_one is_free_forward
counted_ahead = refl

make_one-Painted_example : Painted false empty (192 / 64) 10 (make_one empty 192 10)
make_one-Painted_example = make_one-Painted empty 192 10 empty-IsBitmap (omega arith) (omega arith)

is_free_forward-Ahead_example : Ahead empty 2048 3 0 (is_free_forward empty 2048 (base_size * 3))
is_free_forward-Ahead_example =
    is_free_forward-Ahead empty 2048 3 empty-IsBitmap (omega arith) (omega arith) (omega arith)

is_free_backward-Behind_example : Behind empty 9 0 (is_free_backward empty 2048 (base_size * 10))
is_free_backward-Behind_example =
    is_free_backward-Behind empty 2048 9 empty-IsBitmap (omega arith) (omega arith) (omega arith)

abbrev sum : ℕ → ℕ → ℕ
sum a b = a + b

crc_compute-Carries_example :
    Carries 128 (crc_compute sum 640 128) crc_get_size
    × Carries 128 (xor_compute 640 128) xor_get_size
crc_compute-Carries_example = crc_compute-Carries sum 640 128 (omega arith) (omega arith)
