-- ===== src/Foot/Tests.antt =====
-- The theorem on inc/foot.c at a linker that finds both functions.
use zalloc.Base.{ℕ, ◌+◌, ◌≡◌, true, false, Run, ok}
use zalloc.Foot.{Foot, Linker, foot_init, call_malloc, call_free}
use zalloc.Foot.Wrapped.{IsFoot, foot_init-calls}

abbrev linker : Linker
linker = record { malloc_at = 4096; malloc_error = false; free_at = 8192; free_error = false }

abbrev unknown : Foot
unknown = record { origin_malloc = 0; origin_free = 0; is_foot_init = false }

unknown-IsFoot : IsFoot unknown
unknown-IsFoot init = cc

abbrev jump : ℕ → ℕ → Run ℕ
jump f x = ok (f + x)

foot_init-calls_example :
    IsFoot (foot_init linker unknown)
    × ((foot_init linker unknown).is_foot_init ≡ true
        → (call_malloc jump (foot_init linker unknown) 5
            ≡ jump (foot_init linker unknown).origin_malloc 5)
          × (call_free jump (foot_init linker unknown) 5
              ≡ jump (foot_init linker unknown).origin_free 5)
          × (foot_init linker (foot_init linker unknown) ≡ foot_init linker unknown))
foot_init-calls_example = foot_init-calls jump linker linker unknown 5 unknown-IsFoot
