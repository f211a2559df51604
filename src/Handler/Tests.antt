-- ===== src/Handler/Tests.antt =====
-- The theorem on src/handler.c with lists of addresses, and names that are numbers.
use zalloc.Base.{ℕ, ◌≡◌, refl, List, [], ◌∷◌, ◌%◌, some, true}
use zalloc.Handler.Plain.{plain, compare_names}
use zalloc.Handler.{without, has, find_name, handler_get}
use zalloc.Handler.Calls.{
  Call, register, unregister, is_legal, registered, run_calls, IsFirst, handler_get-IsFirst,
}

-- The handlers 3, 13 and 23 have the same name. One is removed twice.
abbrev name_at : ℕ → ℕ
name_at h = h % 10

abbrev calls : List Call
calls = register 3 ∷ register 4 ∷ register 13 ∷ unregister 3 ∷ unregister 3 ∷ register 23 ∷ []

oldest :
    handler_get plain name_at compare_names (run_calls plain name_at compare_names ([], []) calls) 3
    ≡ some 13
unfolding handler_get find_name run_calls without
oldest = refl

legal : is_legal [] [] calls ≡ true
unfolding is_legal has without
legal = refl

handler_get-IsFirst_example : IsFirst plain name_at compare_names 3 (registered [] calls) (
    handler_get plain name_at compare_names
      (run_calls plain name_at compare_names plain.head_init calls)
      3)
handler_get-IsFirst_example = handler_get-IsFirst plain name_at compare_names 3 calls legal
