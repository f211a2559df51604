-- ===== src/Nvmalloc/Print/Tests.antt =====
-- One page with a block in use and a free one, and a sum in place of the checksum.
use zalloc.Base.{
  ℕ, ◌+◌, ◌-◌, ◌/◌, ◌%◌, ◌^◌, ◌<◌, ◌≡◌, refl, false, [], ◌∷◌, ◌++◌, List, ok, ◌==◌, if◌then◌else◌,
  arith, Bool-cases, ==_true, inl, inr,
}
use zalloc.Nvmalloc.{base_size}
use zalloc.Nvmalloc.Header.{negate, crc_compute}
use zalloc.Nvmalloc.Free.{Nvm}
use zalloc.Nvmalloc.Marks.{is_clear}
use zalloc.Nvmalloc.Tiles.{held, vacant, total}
use zalloc.Nvmalloc.Block.{IsLaidOut}
use zalloc.Nvmalloc.Print.{newline, nvmalloc_print}
use zalloc.Nvmalloc.Print.Lists.{scaled, list_tokens}
use zalloc.Nvmalloc.Print.Row.{row_tokens, in_lines, nvmalloc_print-row}

abbrev sum : ℕ → ℕ → ℕ
sum a b = (a + b) % 2 ^ 32

-- A block of two units waits, and one is free before the zone.
abbrev page : Nvm
page = record {
  zone = 192;
  top = 4096;
  pages = 1;
  bitmap = record { size = 8; bytes = λ i. if i == 0 then 3 else 0 };
  lists = λ i. if i == 0 then 128 ∷ [] else [];
  word = λ p. if p == 0 then negate (crc_compute sum 0 129) else negate (crc_compute sum 128 64);
  next = λ p. 0;
  time = λ p. 0;
  head = 0;
  tail = 0;
  wait = 0;
}

first_bits : (x : ℕ) → x < 2 → is_clear page.bitmap x ≡ false
first_bits x h = elim (Bool-cases (x == 0)) [
  | inl at_start ↦ rw (==_true x 0 at_start) refl
  | inr later ↦ let one : x ≡ 1 = ground arith in rw one refl
]

narrow_bytes : (i : ℕ) → (if i == 0 then 3 else 0) < 256
narrow_bytes i = ground arith

page-IsLaidOut : IsLaidOut sum page (held 2 ∷ vacant 1 ∷ [])
unfolding total
page-IsLaidOut = record {
  bitmap = record { narrow = narrow_bytes; small = omega arith };
  aligned = refl;
  zone = refl;
  within = omega arith;
  small = omega arith;
  tiles = (
    omega arith,
    (λ x low high. first_bits x (omega arith)),
    refl,
    (omega arith, (λ x low high. (let two : x ≡ 2 = omega arith in rw two refl)), refl, tt),
  );
  places = λ i. elim (Bool-cases (i == 0)) [
    | inl at_start ↦ rw at_start ((2, refl, omega arith), tt)
    | inr later ↦ rw later tt
  ];
}

nvmalloc_print-row_example :
    (us : ℕ → List ℕ) × ((i : ℕ) → page.lists i ≡ scaled (us i))
    × (nvmalloc_print page
        ≡ ok (
            in_lines 0 (
              row_tokens
                (held 2 ∷ vacant 1 ∷ [])
                (page.top / base_size - total (held 2 ∷ vacant 1 ∷ [])))
            ++ (newline ∷ list_tokens us 65)))
nvmalloc_print-row_example = nvmalloc_print-row sum page (held 2 ∷ vacant 1 ∷ []) page-IsLaidOut
