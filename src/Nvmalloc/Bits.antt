-- ===== src/Nvmalloc/Bits.antt =====
-- The bits of a byte, by trying them all.
use zalloc.Base.{
  ℕ, zero, suc, ◌-◌, ◌^◌, ◌<◌, ◌≡◌, refl, sym, Bool, true, false, ◌&&◌, bit_and, bit_or, arith, ltb,
  ◌==◌, if◌then◌else◌, Bool-cases, ==_true, inl, inr,
}

unfoldable all_below : ℕ → (ℕ → Bool) → Bool
all_below zero f = true
all_below (suc n) f = f n && all_below n f

abbrev iff : Bool → Bool → Bool
iff true b = b
iff false true = false
iff false false = true

-- Whether the bit of `mask` is clear.
abbrev pub clear : ℕ → ℕ → Bool
clear b k = bit_and b (2 ^ k) == 0

-- How an operation on a byte and a mask of one bit changes that bit.
pub record Paints (op : ℕ → ℕ → ℕ) (v : Bool) : Type 0 where
  pub bit :
      (b j k : ℕ)
      → b < 256
      → j < 8
      → k < 8
      → clear (op b (2 ^ j)) k ≡ (if j == k then v else clear b k)
  pub narrow : (b j : ℕ) → b < 256 → j < 8 → op b (2 ^ j) < 256

abbrev or_right : ℕ → ℕ → ℕ → Bool
or_right b j k = iff (clear (bit_or b (2 ^ j)) k) (if j == k then false else clear b k)

or_all : all_below 256 (λ b. all_below 8 (λ j. all_below 8 (λ k. or_right b j k))) ≡ true
unfolding all_below
or_all = refl

abbrev and_right : ℕ → ℕ → ℕ → Bool
and_right b j k = iff (clear (bit_and b (255 - 2 ^ j)) k) (if j == k then true else clear b k)

and_all : all_below 256 (λ b. all_below 8 (λ j. all_below 8 (λ k. and_right b j k))) ≡ true
unfolding all_below
and_all = refl

abbrev narrow_right : ℕ → ℕ → Bool
narrow_right b j = ltb (bit_or b (2 ^ j)) 256 && ltb (bit_and b (255 - 2 ^ j)) 256

narrow_all : all_below 256 (λ b. all_below 8 (narrow_right b)) ≡ true
unfolding all_below
narrow_all = refl

all_below-at : (n : ℕ) (f : ℕ → Bool) (i : ℕ) → all_below n f ≡ true → i < n → f i ≡ true
unfolding all_below
all_below-at zero f i h lt = absurd (omega arith)
all_below-at (suc n) f i h lt = elim (Bool-cases (i == n)) [
  | inl last ↦ rw (==_true i n last) (and_left (f n) (all_below n f) h)
  | inr below ↦ all_below-at n f i (and_rest (f n) (all_below n f) h) (ground arith)
]
  where
    and_left : (a b : Bool) → (a && b) ≡ true → a ≡ true
    and_left a b h = ground arith

    and_rest : (a b : Bool) → (a && b) ≡ true → b ≡ true
    and_rest true b h = h
    and_rest false b h = absurd (cc h)

iff_true : (a b : Bool) → iff a b ≡ true → a ≡ b
iff_true true b h = sym h
iff_true false true h = absurd (cc h)
iff_true false false h = refl

lt_of : (a b : ℕ) → ltb a b ≡ true → a < b
lt_of a b h = ground arith

and_both : (a b : Bool) → (a && b) ≡ true → (a ≡ true) × (b ≡ true)
and_both true b h = (refl, h)
and_both false b h = absurd (cc h)

narrow_at : (b j : ℕ) → b < 256 → j < 8 → (bit_or b (2 ^ j) < 256) × (bit_and b (255 - 2 ^ j) < 256)
narrow_at b j hb hj =
    let both = and_both _ _ (
      all_below-at 8 (narrow_right b) j
        (all_below-at 256 (λ b. all_below 8 (narrow_right b)) b narrow_all hb) hj) in
    (lt_of _ _ both.0, lt_of _ _ both.1)

-- `byte | mask` and `byte & ~mask`
abbrev pub set_bit : ℕ → ℕ → ℕ
set_bit b mask = bit_or b mask

abbrev pub clear_bit : ℕ → ℕ → ℕ
clear_bit b mask = bit_and b (255 - mask)

pub set_bit-Paints : Paints set_bit false
set_bit-Paints = record {
  bit = λ b j k hb hj hk. iff_true _ _ (
      all_below-at 8 (or_right b j) k
        (all_below-at 8 (λ j. all_below 8 (λ k. or_right b j k)) j
          (all_below-at 256 (λ b. all_below 8 (λ j. all_below 8 (λ k. or_right b j k))) b or_all hb)
          hj)
        hk);
  narrow = λ b j hb hj. (narrow_at b j hb hj).0;
}

pub clear_bit-Paints : Paints clear_bit true
clear_bit-Paints = record {
  bit = λ b j k hb hj hk. iff_true _ _ (
      all_below-at 8 (and_right b j) k
        (all_below-at 8 (λ j. all_below 8 (λ k. and_right b j k)) j
          (all_below-at 256 (λ b. all_below 8 (λ j. all_below 8 (λ k. and_right b j k))) b and_all
            hb)
          hj)
        hk);
  narrow = λ b j hb hj. (narrow_at b j hb hj).1;
}

last_all : all_below 8 (λ j. iff (2 ^ j == 128) (j == 7)) ≡ true
unfolding all_below
last_all = refl

-- The mask 128 is that of the last bit.
pub last_bit : (j : ℕ) → j < 8 → (2 ^ j == 128) ≡ (j == 7)
last_bit j h = iff_true _ _ (all_below-at 8 (λ j. iff (2 ^ j == 128) (j == 7)) j last_all h)

first_all : all_below 8 (λ j. iff (2 ^ j == 1) (j == 0)) ≡ true
unfolding all_below
first_all = refl

-- The mask 1 is that of the first bit.
pub first_bit : (j : ℕ) → j < 8 → (2 ^ j == 1) ≡ (j == 0)
first_bit j h = iff_true _ _ (all_below-at 8 (λ j. iff (2 ^ j == 1) (j == 0)) j first_all h)
