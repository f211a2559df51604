-- ===== src/Handler/Plain.antt =====
-- The interface `Clist` with lists of addresses, and names that are numbers: what the tests use.
use zalloc.Base.{
  ℕ, ◌≡◌, refl, List, [], ◌∷◌, ◌++◌, true, ◌==◌, if◌then◌else◌, ==_same, Bool-cases, inl, inr,
}
use zalloc.Handler.{without, has, Clist}
use zalloc.Handler.Calls.{without-absent}

pub has-first : (h : ℕ) (xs : List ℕ) → has h (h ∷ xs) ≡ true
unfolding has
has-first h xs = rw (==_same h) refl

pub has-next : (g h : ℕ) (xs : List ℕ) → has g xs ≡ true → has g (h ∷ xs) ≡ true
unfolding has
has-next g h xs e = elim (Bool-cases (h == g)) [
  | inl same ↦ rw same refl
  | inr apart ↦ rw (apart, e) refl
]

-- The elements, and those that point to themselves.
abbrev pub plain : Clist (List ℕ × List ℕ)
plain = record {
  head_init = ([], []);
  addq = λ l h. (l.0 ++ (h ∷ []), l.1);
  del = λ l h. (without h l.0, l.1);
  init = λ l h. (l.0, h ∷ l.1);
  items = λ l. l.0;
  is_alone = λ l h. has h l.1;
  items-head_init = refl;
  items-addq = λ l h absent. refl;
  items-del = λ l h here. refl;
  items-del_alone = λ l h absent alone. without-absent h l.0 absent;
  items-init = λ l h absent. refl;
  is_alone-init = λ l h absent. has-first h l.1;
  is_alone-addq = λ l h g absent alone apart. alone;
  is_alone-del = λ l h g linked alone apart. alone;
  is_alone-init_other = λ l h g absent alone apart. has-next g h l.1 alone;
}

abbrev pub compare_names : ℕ → ℕ → ℕ
compare_names a b = if a == b then 0 else 1

abbrev pub own_name : ℕ → ℕ
own_name h = h
