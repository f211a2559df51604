-- ===== src/Buddy/Dump.antt =====
-- inc/buddy/buddy.c: `buddy_dump`, with a token for each thing that it prints.
pub mod Tokens
use zalloc.Base.{
  ℕ, zero, suc, ◌+◌, ◌-◌, ◌*◌, ◌%◌, ◌^◌, List, [], ◌∷◌, ◌++◌, Run, ok, out_of_fuel, ◌>>=◌, ◌==◌,
  if◌then◌else◌,
}
use zalloc.Buddy.State.{node_unused, node_used, node_full, Buddy, get_state, shift_one}
use zalloc.Buddy.Alloc.{index_offset}

-- A free block and an allocation, each with its offset and its pages; the brackets round the halves
-- of a full block and of any other; the line feed at the end.
pub data Token : Type 0 where
  vacant taken : (offset pages : ℕ) → Token
  full_open full_close half_open half_close newline : Token

abbrev pub show : (ℕ → ℕ → Token) → Buddy → (index level : ℕ) → Run (List Token)
show token b index level = do
  offset ← index_offset index level b.level
  pages ← shift_one (b.level - level)
  ok (token offset pages ∷ [])

-- The two recursive calls, between brackets.
abbrev pub between : Token → Token → Run (List Token) → Run (List Token) → Run (List Token)
between before after first second = do
  xs ← first
  ys ← second
  ok (before ∷ (xs ++ (ys ++ (after ∷ []))))

unfoldable pub dump : ℕ → Buddy → (index level : ℕ) → Run (List Token)
dump zero b index level = out_of_fuel
dump (suc k) b index level =
    let first = dump k b ((index * 2 + 1) % 2 ^ 64) (level + 1) in
    let second = dump k b ((index * 2 + 2) % 2 ^ 64) (level + 1) in
    get_state b index >>= λ st.
    if st == node_unused
    then show vacant b index level
    else if st == node_used
    then show taken b index level
    else if st == node_full
    then between full_open full_close first second
    else between half_open half_close first second

-- A region has at most 256 levels.
unfoldable pub buddy_dump : Buddy → Run (List Token)
buddy_dump b = do xs ← dump 257 b 0 0; ok (xs ++ (newline ∷ []))
