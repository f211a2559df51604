-- ===== src/Handler.antt =====
-- src/handler.c: the registry of allocators, over the intrusive lists of inc/common/mini-clist.h and
-- the C library's `strcmp`, which are parameters.
pub mod Calls
pub mod Plain
mod Tests
use zalloc.Base.{
  ℕ, ◌≡◌, List, [], ◌∷◌, ◌++◌, Option, none, some, Bool, true, false, ◌||◌, ◌==◌, if◌then◌else◌,
}

-- The elements of a list but `h`.
unfoldable pub without : ℕ → List ℕ → List ℕ
without h [] = []
without h (x ∷ xs) = let rest = without h xs in if x == h then rest else x ∷ rest

unfoldable pub has : ℕ → List ℕ → Bool
has h [] = false
has h (x ∷ xs) = x == h || has h xs

-- What the registry relies on of the lists: LIST_HEAD_INIT, LIST_ADDQ, LIST_DEL, LIST_INIT and the
-- order of `list_for_each_entry`. A handler is its address. LIST_ADDQ adds at the end an element that
-- is not linked. LIST_DEL unlinks an element of the list, and does nothing to one whose links
-- point to itself, as LIST_INIT leaves them. For other elements nothing is known of either.
pub record Clist (L : Type 0) : Type 0 where
  pub head_init : L
  pub addq : L → ℕ → L
  pub del : L → ℕ → L
  pub init : L → ℕ → L
  pub items : L → List ℕ
  pub is_alone : L → ℕ → Bool
  pub items-head_init : items head_init ≡ []
  pub items-addq :
      (l : L) (h : ℕ) → has h (items l) ≡ false → items (addq l h) ≡ items l ++ (h ∷ [])
  pub items-del : (l : L) (h : ℕ) → has h (items l) ≡ true → items (del l h) ≡ without h (items l)
  pub items-del_alone :
      (l : L) (h : ℕ) → has h (items l) ≡ false → is_alone l h ≡ true → items (del l h) ≡ items l
  pub items-init : (l : L) (h : ℕ) → has h (items l) ≡ false → items (init l h) ≡ items l
  pub is_alone-init : (l : L) (h : ℕ) → has h (items l) ≡ false → is_alone (init l h) h ≡ true
  pub is_alone-addq :
      (l : L) (h g : ℕ)
      → has h (items l) ≡ false
      → is_alone l g ≡ true
      → (g == h) ≡ false
      → is_alone (addq l h) g ≡ true
  pub is_alone-del :
      (l : L) (h g : ℕ)
      → (has h (items l) || is_alone l h) ≡ true
      → is_alone l g ≡ true
      → (g == h) ≡ false
      → is_alone (del l h) g ≡ true
  pub is_alone-init_other :
      (l : L) (h g : ℕ)
      → has h (items l) ≡ false
      → is_alone l g ≡ true
      → (g == h) ≡ false
      → is_alone (init l h) g ≡ true

-- `name` is the field of the handler at an address, `strcmp` the C library's.
module _ {L Name : Type 0} (clist : Clist L) (name : ℕ → Name) (strcmp : Name → Name → ℕ) where
  abbrev pub handler_register : L → ℕ → L
  handler_register handlers h = clist.addq handlers h

  abbrev pub handler_unregister : L → ℕ → L
  handler_unregister handlers h = clist.init (clist.del handlers h) h

  unfoldable pub find_name : Name → List ℕ → Option ℕ
  find_name n [] = none
  find_name n (h ∷ hs) =
      let rest = find_name n hs in if strcmp (name h) n == 0 then some h else rest

  unfoldable pub handler_get : L → Name → Option ℕ
  unfolding find_name
  handler_get handlers n = find_name n (clist.items handlers)
