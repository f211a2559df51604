-- ===== src/Foot/Wrapped.antt =====
-- What `foot_init` keeps, and that the wrapped functions can be called after it.
use zalloc.Base.{ℕ, ◌≡◌, refl, Bool, true, false, Run, arith, ◌==◌, ◌||◌, inl, inr, Bool-cases}
use zalloc.Foot.{Foot, Linker, find_free, foot_init, call_malloc, call_free}

-- Once the flag is set, both functions are known.
abbrev pub IsFoot : Foot → Type 0
IsFoot st =
    st.is_foot_init ≡ true → ((st.origin_malloc == 0) ≡ false) × ((st.origin_free == 0) ≡ false)

missing_found : (n : ℕ) (e : Bool) → ((n == 0) || e) ≡ false → (n == 0) ≡ false
missing_found n e h = ground arith

abbrev foot_of : ℕ → ℕ → Bool → Foot
foot_of m f init = record { origin_malloc = m; origin_free = f; is_foot_init = init }

find_free-IsFoot :
    (w : Linker) (m f : ℕ) → (m == 0) ≡ false → IsFoot (find_free w (foot_of m f false))
unfolding find_free
find_free-IsFoot w m f known = elim (Bool-cases (f == 0)) [
  | inr found ↦ rw found (λ _. (known, found))
  | inl absent ↦ rw absent (elim (Bool-cases ((w.free_at == 0) || w.free_error)) [
    | inl miss ↦ rw miss (λ init. cc)
    | inr good ↦ rw good (λ _. (known, missing_found w.free_at w.free_error good))
  ])
]

foot_of-IsFoot :
    (w : Linker) (m f : ℕ) (init : Bool)
    → IsFoot (foot_of m f init)
    → IsFoot (foot_init w (foot_of m f init))
unfolding foot_init
foot_of-IsFoot w m f true valid = valid
foot_of-IsFoot w m f false valid = elim (Bool-cases (m == 0)) [
  | inr found ↦ rw found (find_free-IsFoot w m f found)
  | inl absent ↦ rw absent (elim (Bool-cases ((w.malloc_at == 0) || w.malloc_error)) [
    | inl miss ↦ rw miss (λ init. cc)
    | inr good ↦
        rw good (find_free-IsFoot w w.malloc_at f (missing_found w.malloc_at w.malloc_error good))
  ])
]

foot_init-IsFoot : (w : Linker) (st : Foot) → IsFoot st → IsFoot (foot_init w st)
foot_init-IsFoot w st = foot_of-IsFoot w st.origin_malloc st.origin_free st.is_foot_init

call_malloc-found {ℓ} :
    {A : Type ℓ} (call : ℕ → ℕ → Run A) (st : Foot) (x : ℕ)
    → (st.origin_malloc == 0) ≡ false
    → call_malloc call st x ≡ call st.origin_malloc x
unfolding call_malloc
call_malloc-found call st x h = rw h refl

call_free-found {ℓ} :
    {A : Type ℓ} (call : ℕ → ℕ → Run A) (st : Foot) (x : ℕ)
    → (st.origin_free == 0) ≡ false
    → call_free call st x ≡ call st.origin_free x
unfolding call_free
call_free-found call st x h = rw h refl

foot_init-done : (w : Linker) (st : Foot) → st.is_foot_init ≡ true → foot_init w st ≡ st
unfolding foot_init
foot_init-done w st h = rw h refl

-- From a state whose flag is set only with both functions known, `foot_init` leads to such a state.
-- Where the flag is then set, neither wrapper fails its assertion, each calls the function that
-- was found, and further calls of `foot_init` change nothing.
pub foot_init-calls {ℓ} :
    {A : Type ℓ} (call : ℕ → ℕ → Run A) (w w' : Linker) (st : Foot) (x : ℕ)
    → IsFoot st
    → IsFoot (foot_init w st)
      × ((foot_init w st).is_foot_init ≡ true
          → (call_malloc call (foot_init w st) x ≡ call (foot_init w st).origin_malloc x)
            × (call_free call (foot_init w st) x ≡ call (foot_init w st).origin_free x)
            × (foot_init w' (foot_init w st) ≡ foot_init w st))
foot_init-calls call w w' st x valid =
    let after = foot_init-IsFoot w st valid in
    (
      after,
      λ init.
          let found = after init in
          (
            call_malloc-found call (foot_init w st) x found.0,
            call_free-found call (foot_init w st) x found.1,
            foot_init-done w' (foot_init w st) init,
          ),
    )
