-- ===== src/Handler/Calls.antt =====
-- `handler_get` after sequences of `handler_register` and `handler_unregister`.
use mathlib.Core.Path.{subst}
use zalloc.Base.{
  ℕ, ◌≡◌, refl, sym, ap, ◌∙◌, List, [], ◌∷◌, ◌++◌, Option, none, some, Bool, true, false, not, ◌&&◌,
  ◌||◌, ◌==◌, arith, Bool-cases, ==_true, inl, inr,
}
use zalloc.Handler.{
  without, has, Clist, handler_register, handler_unregister, find_name, handler_get,
}

pub data Call : Type 0 where
  register : ℕ → Call
  unregister : ℕ → Call

-- The handlers that are registered after some calls, the oldest first.
unfoldable pub registered : List ℕ → List Call → List ℕ
registered hs [] = hs
registered hs (register h ∷ calls) = registered (hs ++ (h ∷ [])) calls
registered hs (unregister h ∷ calls) = registered (without h hs) calls

-- The calls that the lists allow, where `hs` are registered and `gone` were: a handler is registered
-- while it is not, and removed while it is registered, or again after that.
unfoldable pub is_legal : (hs gone : List ℕ) → List Call → Bool
unfolding has without
is_legal hs gone [] = true
is_legal hs gone (register h ∷ calls) =
    not (has h hs) && is_legal (hs ++ (h ∷ [])) (without h gone) calls
is_legal hs gone (unregister h ∷ calls) =
    (has h hs || has h gone) && is_legal (without h hs) (h ∷ gone) calls

has-without : (h : ℕ) (xs : List ℕ) → has h (without h xs) ≡ false
unfolding has without
has-without h [] = refl
has-without h (x ∷ xs) = elim (Bool-cases (x == h)) [
  | inl same ↦ rw same (has-without h xs)
  | inr apart ↦ rw apart (rw apart (has-without h xs))
]

-- An element of the rest is one of the list, and another one.
has-without_other :
    (h g : ℕ) (xs : List ℕ) → has g (without h xs) ≡ true → (has g xs ≡ true) × ((g == h) ≡ false)
unfolding has without
has-without_other h g [] e = cc e
has-without_other h g (x ∷ xs) e = elim (Bool-cases (x == h)) [
  | inl same ↦
      let rest = has-without_other h g xs (rw same at e) in
      let among : (x == g || has g xs) ≡ true = or_right (x == g) (has g xs) rest.0 in
      (among, rest.1)
  | inr apart ↦ elim (Bool-cases (x == g)) [
    | inl here ↦ let other : (g == h) ≡ false = ground (arith, here, apart) in (rw here refl, other)
    | inr there ↦
        let rest = has-without_other h g xs (rw (apart, there) at e) in (rw there rest.0, rest.1)
  ]
]
  where
    or_right : (a b : Bool) → b ≡ true → (a || b) ≡ true
    or_right a b h = ground arith

pub without-absent : (h : ℕ) (xs : List ℕ) → has h xs ≡ false → without h xs ≡ xs
unfolding has without
without-absent h [] e = refl
without-absent h (x ∷ xs) e = elim (Bool-cases (x == h)) [
  | inl same ↦ cc (rw same at e)
  | inr apart ↦ rw apart (ap (◌∷◌ x) (without-absent h xs (rw apart at e)))
]

both : (a b : Bool) → (a && b) ≡ true → (a ≡ true) × (b ≡ true)
both a b h = ground arith

-- What the calls do to the list of handlers.
module _ {L Name : Type 0} (clist : Clist L) (name : ℕ → Name) (strcmp : Name → Name → ℕ) where
  unfoldable pub run_calls : L → List Call → L
  run_calls handlers [] = handlers
  run_calls handlers (register h ∷ calls) =
      run_calls (handler_register clist name strcmp handlers h) calls
  run_calls handlers (unregister h ∷ calls) =
      run_calls (handler_unregister clist name strcmp handlers h) calls

  abbrev pub is_named : Name → ℕ → Bool
  is_named n h = strcmp (name h) n == 0

  -- None of the handlers has the name.
  pub data AllOthers (n : Name) : List ℕ → Type 0 where
    no_more : AllOthers n []
    other : {h : ℕ} {hs : List ℕ} → is_named n h ≡ false → AllOthers n hs → AllOthers n (h ∷ hs)

  -- The answer is the first handler that has the name.
  pub data IsFirst (n : Name) : List ℕ → Option ℕ → Type 0 where
    found :
        (before after : List ℕ) (h : ℕ)
        → AllOthers n before
        → is_named n h ≡ true
        → IsFirst n (before ++ (h ∷ after)) (some h)
    missing : {hs : List ℕ} → AllOthers n hs → IsFirst n hs none

  later_IsFirst :
      (n : Name) (h : ℕ) {hs : List ℕ} {answer : Option ℕ}
      → is_named n h ≡ false
      → IsFirst n hs answer
      → IsFirst n (h ∷ hs) answer
  later_IsFirst n h e (found before after x others same) =
      found (h ∷ before) after x (other e others) same
  later_IsFirst n h e (missing others) = missing (other e others)

  find_name-IsFirst : (n : Name) (hs : List ℕ) → IsFirst n hs (find_name clist name strcmp n hs)
  unfolding find_name
  find_name-IsFirst n [] = missing no_more
  find_name-IsFirst n (h ∷ hs) = elim (Bool-cases (strcmp (name h) n == 0)) [
    | inl same ↦ rw same (found [] hs h no_more same)
    | inr apart ↦ rw apart (later_IsFirst n h apart (find_name-IsFirst n hs))
  ]

  -- The list has the elements `hs`, and those of `gone` point to themselves.
  record Holds (l : L) (hs gone : List ℕ) : Type 0 where
    listed : clist.items l ≡ hs
    alone : (g : ℕ) → has g gone ≡ true → clist.is_alone l g ≡ true

  register-Holds :
      (l : L) (hs gone : List ℕ) (h : ℕ)
      → Holds l hs gone
      → has h hs ≡ false
      → Holds (handler_register clist name strcmp l h) (hs ++ (h ∷ [])) (without h gone)
  register-Holds l hs gone h holds absent =
      let absent' : has h (clist.items l) ≡ false = rw holds.listed absent in
      record {
        listed = clist.items-addq l h absent' ∙ ap (λ xs. xs ++ (h ∷ [])) holds.listed;
        alone = λ g among.
            let (before, apart) = has-without_other h g gone among in
            clist.is_alone-addq l h g absent' (holds.alone g before) apart;
      }

  unregister-Holds :
      (l : L) (hs gone : List ℕ) (h : ℕ)
      → Holds l hs gone
      → (has h hs || has h gone) ≡ true
      → Holds (handler_unregister clist name strcmp l h) (without h hs) (h ∷ gone)
  unfolding has
  unregister-Holds l hs gone h holds known =
      let deleted : clist.items (clist.del l h) ≡ without h hs = elim (Bool-cases (has h hs)) [
        | inl here ↦ clist.items-del l h (rw holds.listed here) ∙ ap (without h) holds.listed
        | inr away ↦
            clist.items-del_alone l h (rw holds.listed away)
              (holds.alone h (or_first (has h hs) (has h gone) away known))
            ∙ (holds.listed ∙ sym (without-absent h hs away))
      ] in
      let absent : has h (clist.items (clist.del l h)) ≡ false = rw deleted (has-without h hs) in
      let linked : (has h (clist.items l) || clist.is_alone l h) ≡ true =
        rw holds.listed
          (linked_or (has h hs) (has h gone) (clist.is_alone l h) known (holds.alone h)) in
      record {
        listed = clist.items-init (clist.del l h) h absent ∙ deleted;
        alone = λ g among. elim (Bool-cases (g == h)) [
          | inl same ↦
              subst (λ x. clist.is_alone (clist.init (clist.del l h) h) x ≡ true)
                (sym (==_true g h same)) (clist.is_alone-init (clist.del l h) h absent)
          | inr apart ↦
              let swapped : (h == g) ≡ false = ground (arith, apart) in
              clist.is_alone-init_other (clist.del l h) h g absent
                (clist.is_alone-del l h g linked (holds.alone g (rw swapped at among)) apart) apart
        ];
      }
    where
      or_first : (a b : Bool) → a ≡ false → (a || b) ≡ true → b ≡ true
      or_first a b first_no h = ground arith

      linked_or : (a b c : Bool) → (a || b) ≡ true → (b ≡ true → c ≡ true) → (a || c) ≡ true
      linked_or true b c h next = refl
      linked_or false b c h next = next h

  run_calls-Holds :
      (calls : List Call) (l : L) (hs gone : List ℕ)
      → Holds l hs gone
      → is_legal hs gone calls ≡ true
      → clist.items (run_calls l calls) ≡ registered hs calls
  unfolding run_calls registered is_legal
  run_calls-Holds [] l hs gone holds legal = holds.listed
  run_calls-Holds (register h ∷ calls) l hs gone holds legal =
      let (absent, rest) =
        both (not (has h hs)) (is_legal (hs ++ (h ∷ [])) (without h gone) calls) legal in
      run_calls-Holds calls (handler_register clist name strcmp l h) (hs ++ (h ∷ []))
        (without h gone) (register-Holds l hs gone h holds (not_true (has h hs) absent)) rest
    where
      not_true : (a : Bool) → not a ≡ true → a ≡ false
      not_true a e = ground arith
  run_calls-Holds (unregister h ∷ calls) l hs gone holds legal =
      let (known, rest) =
        both (has h hs || has h gone) (is_legal (without h hs) (h ∷ gone) calls) legal in
      run_calls-Holds calls (handler_unregister clist name strcmp l h) (without h hs) (h ∷ gone)
        (unregister-Holds l hs gone h holds known) rest

  pub items-run_calls :
      (calls : List Call)
      → is_legal [] [] calls ≡ true
      → clist.items (run_calls clist.head_init calls) ≡ registered [] calls
  unfolding has
  items-run_calls calls legal =
      run_calls-Holds calls clist.head_init [] []
        (record { listed = clist.items-head_init; alone = λ g among. cc among }) legal

  -- After a sequence of calls, each a registration of a handler that is not registered, or the removal
  -- of one that is registered or was removed before, `handler_get` gives the oldest handler of the
  -- name among those that are registered then, and NULL exactly where none of them has the name.
  pub handler_get-IsFirst :
      (n : Name) (calls : List Call)
      → is_legal [] [] calls ≡ true
      → IsFirst n
          (registered [] calls)
          (handler_get clist name strcmp (run_calls clist.head_init calls) n)
  unfolding handler_get
  handler_get-IsFirst n calls legal =
      let listed : clist.items (run_calls clist.head_init calls) ≡ registered [] calls =
        items-run_calls calls legal in
      rw listed (find_name-IsFirst n (registered [] calls))
