-- ===== src/Timing/Text.antt =====
-- The bytes that `strcpy` and `sprintf` leave in memory.
use zalloc.Base.{
  ℕ, zero, suc, ◌+◌, ◌≤◌, ◌<◌, ◌≡◌, refl, ap, ◌∙◌, true, false, ◌⊎◌, List, [], ◌∷◌, ◌==◌, arith,
}
use zalloc.Bump.{write}

unfoldable pub size_of : List ℕ → ℕ
size_of [] = 0
size_of (b ∷ bs) = suc (size_of bs)

-- The byte at distance `j` in a list of bytes.
pub byte_at : List ℕ → ℕ → ℕ
byte_at [] j = 0
byte_at (b ∷ bs) zero = b
byte_at (b ∷ bs) (suc j) = byte_at bs j

pub write-outside :
    (p : ℕ) (bs : List ℕ) (memory : ℕ → ℕ) (a : ℕ)
    → (a < p) ⊎ (p + size_of bs ≤ a)
    → write p bs memory a ≡ memory a
unfolding write size_of
write-outside p [] memory a away = refl
write-outside p (b ∷ bs) memory a away =
    let apart : (a == p) ≡ false = ground arith in
    rw apart (write-outside (p + 1) bs memory a (ground arith))

pub write-inside :
    (p : ℕ) (bs : List ℕ) (memory : ℕ → ℕ) (j : ℕ)
    → j < size_of bs
    → write p bs memory (p + j) ≡ byte_at bs j
unfolding write size_of byte_at
write-inside p [] memory j low = absurd (omega arith)
write-inside p (b ∷ bs) memory zero low =
    let here : (p + 0 == p) ≡ true = ground arith in rw here refl
write-inside p (b ∷ bs) memory (suc j) low =
    let apart : (p + suc j == p) ≡ false = ground arith in
    let next : p + suc j ≡ p + 1 + j = omega arith in
    rw apart (ap (write (p + 1) bs memory) next ∙ write-inside (p + 1) bs memory j (omega arith))
