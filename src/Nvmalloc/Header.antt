-- ===== src/Nvmalloc/Header.antt =====
-- inc/nvmalloc/nvmalloc.c: the headers of blocks, which carry a checksum in bits 48 to 55.
pub mod Fields
use zalloc.Base.{ℕ, zero, suc, ◌+◌, ◌-◌, ◌*◌, ◌/◌, ◌%◌, ◌^◌, bit_or, bit_and, bit_xor}

abbrev pub checksum_mask : ℕ
checksum_mask = 0x00FF000000000000

abbrev pub size_mask : ℕ
size_mask = 0xFF00FFFFFFFFFFFF

-- `-x` on an `int64_t`, as a bit pattern
abbrev pub negate : ℕ → ℕ
negate x = (2 ^ 64 - x) % 2 ^ 64

-- `_mm_crc32_u32`, an instruction, is a parameter. A location is its distance from `start_address`.
module _ (crc : ℕ → ℕ → ℕ) where
  unfoldable pub crc_compute : (location size : ℕ) → ℕ
  crc_compute location size =
      let chk = crc (location % 2 ^ 32) size * 2 ^ 32 % 2 ^ 64 in
      bit_or size (bit_and chk checksum_mask)

-- The part of a header that is no checksum, as a `uint32_t`.
unfoldable pub crc_get_size : ℕ → ℕ
crc_get_size hsize = bit_and hsize size_mask % 2 ^ 32

-- The variant that D_XOR selects: the six rounds of its loop.
unfoldable pub xor_rounds : ℕ → (chk chk_next : ℕ) → ℕ
xor_rounds zero chk chk_next = chk
xor_rounds (suc k) chk chk_next =
    xor_rounds k (bit_xor chk (bit_and chk_next checksum_mask)) (chk_next * 2 ^ 8 % 2 ^ 64)

unfoldable pub xor_compute : (location size : ℕ) → ℕ
xor_compute location size =
    let chk = bit_and (bit_xor location size) 0x00FFFFFFFFFFFFFF in
    bit_or size (bit_and (xor_rounds 6 chk (chk * 2 ^ 8 % 2 ^ 64)) checksum_mask)

unfoldable pub xor_get_size : ℕ → ℕ
xor_get_size hsize = bit_and hsize size_mask % 2 ^ 32
