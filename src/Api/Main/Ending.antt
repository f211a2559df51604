-- ===== src/Api/Main/Ending.antt =====
-- `main` from its first line to its last.
use zalloc.Base.{
  Option, Option-cases, ℕ, ◌*◌, ◌^◌, ◌≤◌, ◌<◌, ◌≡◌, refl, true, ◌&&◌, List, [], ◌∷◌, ◌++◌, none,
  some, Run, ok, abort, ltb, ◌/◌, ◌==◌, if◌then◌else◌, arith, Bool-cases, inl, inr,
}
use zalloc.Buddy.Tree.{unused}
use zalloc.Mapped.{World}
use zalloc.Mapped.Service.{Ready}
use zalloc.Api.{Process}
use zalloc.Api.Main.{Line, done, limit, limit_failed, megabytes, limit_config, max_pow, main}
use zalloc.Handler.{Clist, handler_get}
use zalloc.Api.Main.Loop.{attempts, Ended, realloc_loop-Ended}

-- The lines of `limit_config`.
pub limit_lines : (set_result get_result rlim_max : ℕ) → List Line
limit_lines set_result get_result rlim_max =
    if set_result == 0 && get_result == 0
    then limit (2 ^ rlim_max / 2 ^ 20) ∷ []
    else limit_failed ∷ []

limit_config-lines :
    (set_result get_result rlim_max : ℕ)
    → rlim_max < 31
    → limit_config set_result get_result rlim_max ≡ ok (limit_lines set_result get_result rlim_max)
unfolding limit_config megabytes limit_lines
limit_config-lines set_result get_result rlim_max small =
    let low : ltb rlim_max 31 ≡ true = ground arith in
    elim (Bool-cases (set_result == 0)) [
      | inl fine ↦ elim (Bool-cases (get_result == 0)) [
        | inl got ↦ rw (fine, got, low) refl
        | inr bad ↦ rw (fine, bad) refl
      ]
      | inr bad ↦ rw bad refl
    ]

-- How `main` ends, by the handler that it finds.
abbrev pub MainEnded : ℕ → List Line → Option ℕ → Run (List Line × ℕ × Process) → Type 0
MainEnded base lines (some h) run =
    Ended base (2 ^ 25) 13 (lines ++ (attempts 0 max_pow ++ (done ∷ []))) run
MainEnded base lines none run = run ≡ abort

module _ {L Name : Type 0} (clist : Clist L) (name : ℕ → Name) (strcmp : Name → Name → ℕ)
    (buddy_name : Name) where
  -- On a mapped file without allocations, with fuel of 3 * 2^19, and a limit below 31: where the
  -- registry has a handler of the name, `main` prints the line of the limit and ends; each of its 26
  -- calls of `realloc` returns a block, and afterwards the only allocation is that of the last call,
  -- 2^25 bytes on 2^13 pages, which the pointer points to. Where it has none, the assertion fails.
  pub main-MainEnded :
      (w : World) (fuel set_result get_result rlim_max : ℕ) (handlers : L) (p : Process)
      → 3 * 2 ^ 19 ≤ fuel
      → rlim_max < 31
      → Ready p.heap unused
      → MainEnded p.heap.memblock
          (limit_lines set_result get_result rlim_max)
          (handler_get clist name strcmp handlers buddy_name)
          (main clist name strcmp buddy_name w fuel set_result get_result rlim_max handlers p)
  unfolding main
  main-MainEnded w fuel set_result get_result rlim_max handlers p enough small ready =
      let limits = limit_config-lines set_result get_result rlim_max small in
      elim (Option-cases (handler_get clist name strcmp handlers buddy_name)) [
        | inl missing ↦ rw (missing, limits) refl
        | inr (h, found) ↦
            let loop = realloc_loop-Ended w fuel p.heap.memblock enough p ready refl in
            rw (found, limits)
              (record {
                mem = loop.mem;
                after = loop.after;
                result = rw loop.result refl;
                holding = loop.holding;
              })
      ]
