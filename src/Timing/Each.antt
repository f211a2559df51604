-- ===== src/Timing/Each.antt =====
-- `test_all` runs the loop of each registered handler, in the order of registration.
use zalloc.Base.{
  ℕ, zero, suc, ◌+◌, ◌≡◌, refl, ap, ◌∙◌, Bool, true, false, List, [], ◌∷◌, ◌++◌, Option, none, some,
  Run, ok, ◌==◌, Bool-cases, inl, inr,
}
use zalloc.Handler.{Clist}
use zalloc.Handler.Calls.{Call, is_legal, registered, run_calls, items-run_calls}
use zalloc.Bump.{write}
use zalloc.Timing.{
  Line, heading, handler, out_of_memory, spent, Timespec, alloc_total, alloc_size, digits, report,
  span_of, timeit_loop, timeit, test_each, test_all,
}
use zalloc.Timing.Rounds.{timeit_loop-suc, timeit_loop-stop}

-- The names among the lines.
pub names : {Name : Type 0} → List (Line Name) → List Name
names [] = []
names (heading total size ∷ lines) = names lines
names (handler n ∷ lines) = n ∷ names lines
names (out_of_memory i ∷ lines) = names lines
names (spent ns ms ∷ lines) = names lines

pub map {ℓ κ} : {A : Type ℓ} {B : Type κ} → (A → B) → List A → List B
map f [] = []
map f (x ∷ xs) = f x ∷ map f xs

-- A handler answers each request of 4096 bytes by NULL or by an address that may be written.
pub record Answers {S : Type 0} (is_valid : ℕ → Bool) (h_malloc : S → ℕ → Run (ℕ × S))
    : Type 0 where
  pub ret : S → ℕ
  pub after : S → S
  pub result : (st : S) → h_malloc st alloc_size ≡ ok (ret st, after st)
  pub valid : (st : S) → (ret st == 0) ≡ false → is_valid (ret st) ≡ true

-- The loop returns.
record Stops {S : Type 0} (r : Run (Option ℕ × S × (ℕ → ℕ))) : Type 0 where
  stopped : Option ℕ
  after : S
  bytes : ℕ → ℕ
  result : r ≡ ok (stopped, after, bytes)

loop-Stops :
    {S : Type 0} (is_valid : ℕ → Bool) (h_malloc : S → ℕ → Run (ℕ × S))
    → Answers is_valid h_malloc
    → (n i : ℕ) (st : S) (memory : ℕ → ℕ) → Stops (timeit_loop is_valid h_malloc st memory i n)
unfolding timeit_loop
loop-Stops is_valid h_malloc a zero i st memory = record {
  stopped = none;
  after = st;
  bytes = memory;
  result = refl;
}
loop-Stops is_valid h_malloc a (suc n) i st memory = elim (Bool-cases (a.ret st == 0)) [
  | inl over ↦ record {
    stopped = some i;
    after = a.after st;
    bytes = memory;
    result =
        timeit_loop-stop is_valid h_malloc st (a.after st) (a.ret st) memory i n (a.result st) over;
  }
  | inr given ↦
      let rest =
        loop-Stops is_valid h_malloc a n (i + 1) (a.after st) (write (a.ret st) digits memory) in
      record {
        stopped = rest.stopped;
        after = rest.after;
        bytes = rest.bytes;
        result =
            timeit_loop-suc is_valid h_malloc st (a.after st) (a.ret st) memory i n (a.result st)
              given (a.valid st given)
            ∙ rest.result;
      }
]

names-report :
    {Name : Type 0} (stopped : Option ℕ) (span : ℕ) (rest : List (Line Name))
    → names (report stopped span ++ rest) ≡ names rest
unfolding names report
names-report none span rest = refl
names-report (some i) span rest = refl

-- What `test_all` returns.
pub record Tested {S Name : Type 0} (tested : List Name) (r : Run (List (Line Name) × S × (ℕ → ℕ)))
    : Type 0 where
  pub lines : List (Line Name)
  pub after : S
  pub bytes : ℕ → ℕ
  pub result : r ≡ ok (lines, after, bytes)
  pub shown : names lines ≡ tested

module _ {S L Name : Type 0} (is_valid : ℕ → Bool) (malloc_of : ℕ → S → ℕ → Run (ℕ × S))
    (clist : Clist L) (name : ℕ → Name) (clock : ℕ → Timespec × Timespec) where
  test_each-Tested :
      (answers : (h : ℕ) → Answers is_valid (malloc_of h)) (k : ℕ) (hs : List ℕ) (st : S)
      (memory : ℕ → ℕ)
      → Tested (map name hs) (test_each is_valid malloc_of clist name clock k hs st memory)
  unfolding test_each timeit names map
  test_each-Tested answers k [] st memory = record {
    lines = [];
    after = st;
    bytes = memory;
    result = refl;
    shown = refl;
  }
  test_each-Tested answers k (h ∷ hs) st memory =
      let one = loop-Stops is_valid (malloc_of h) (answers h) alloc_total 0 st memory in
      let rest = test_each-Tested answers (k + 1) hs one.after one.bytes in
      record {
        lines =
            handler (name h) ∷ (report one.stopped (span_of (clock k).0 (clock k).1) ++ rest.lines);
        after = rest.after;
        bytes = rest.bytes;
        result = rw (one.result, rest.result) refl;
        shown =
            ap (λ ns. name h ∷ ns)
              (names-report one.stopped (span_of (clock k).0 (clock k).1) rest.lines ∙ rest.shown);
      }

  -- Where each handler answers the requests of 4096 bytes by NULL or by addresses that may be written,
  -- `test_all` ends after a sequence of calls, each a registration of a handler that is not registered,
  -- or the removal of one that is registered or was removed before, and names exactly the handlers
  -- that are registered then, the oldest first.
  pub test_all-Tested :
      (strcmp : Name → Name → ℕ) (answers : (h : ℕ) → Answers is_valid (malloc_of h))
      (calls : List Call) (st : S) (memory : ℕ → ℕ)
      → is_legal [] [] calls ≡ true
      → Tested (map name (registered [] calls)) (
          test_all is_valid malloc_of clist name clock
            (run_calls clist name strcmp clist.head_init calls)
            st
            memory)
  unfolding test_all names
  test_all-Tested strcmp answers calls st memory legal =
      let listed : clist.items (run_calls clist name strcmp clist.head_init calls)
          ≡ registered [] calls =
        items-run_calls clist name strcmp calls legal in
      let each = test_each-Tested answers 0 (registered [] calls) st memory in
      record {
        lines = heading alloc_total alloc_size ∷ each.lines;
        after = each.after;
        bytes = each.bytes;
        result = rw (listed, each.result) refl;
        shown = each.shown;
      }
