-- ===== src/Buddy/Alloc/Find.antt =====
-- The search through a block that has room for the request: it takes the first fit.
use mathlib.Core.Path.{subst}
use zalloc.Base.{
  ℕ, zero, suc, ◌+◌, ◌*◌, ◌%◌, ◌^◌, ◌≤◌, ◌<◌, ◌≡◌, ◌≢◌, refl, sym, ap, ◌∙◌, false, ◌&&◌, Option,
  none, some, arith, Bool-cases, inl, inr, plus, plus_assoc, plus-eq-add, two_pow_suc, two_pow_pos,
  two_pow_half, two_pow_lt, two_pow_eq,
}
use zalloc.Buddy.State.{node_unused, node_used, node_split, Node, update}
use zalloc.Buddy.Tree.{
  Block, unused, used, split, is_full, tower, place, in_left, in_right, place-full, place-unused,
}
use zalloc.Buddy.Inside.{Inside, here, left, right}
use zalloc.Buddy.Repr.{IsBlock, HasRoom, HasRoom-lt, buddy_of, get_state-ok, set_state-ok}
use zalloc.Buddy.Alloc.{visit, search, split_node, take_node}
use zalloc.Buddy.Alloc.Mark.{with_state, ne_of_not-Inside, Marked, Marked-left, Marked-right}
use zalloc.Buddy.Alloc.Fail.{Fits, Passed, Fits-down, size_ne, search_fail, search_down, after_left}

-- What `buddy_alloc` writes to the node that it takes.
abbrev pub used_node : ℕ → ℕ → Node
used_node s size = record { pages = size % 2 ^ 32; used = s; state = node_used }

pages_fit : (e d : ℕ) → e ≡ d → d < 31 → 2 ^ e % 2 ^ 32 ≡ 2 ^ d
pages_fit e d h small = omega (arith, two_pow_eq e d h, two_pow_lt d 31 small)

-- The nodes once the free node at `i` is split.
abbrev pub split_nodes : (ℕ → Node) → ℕ → ℕ → Node
split_nodes f i =
    with_state (with_state (with_state f i node_split) (i * 2 + 1) node_unused) (i * 2 + 2)
      node_unused

split-IsBlock : (f : ℕ → Node) (i d : ℕ) → IsBlock (split_nodes f i) i (suc d) (split unused unused)
unfolding is_full
split-IsBlock f i d = (ground arith, ground arith, ground arith)

split_nodes_ne : (f : ℕ → Node) (i x : ℕ) → ¬ Inside i x → split_nodes f i x ≡ f x
split_nodes_ne f i x p =
    let at = ne_of_not-Inside p in
    let below : i * 2 + 1 ≢ x = λ e. p (left here (sym e)) in
    let above : i * 2 + 2 ≢ x = λ e. p (right here (sym e)) in ground arith

module _ (lv n s e : ℕ) where
  -- The search takes the node `index`, the `offset`-th of those `k` levels below `i`, and the
  -- marking that follows turns the block at `i` into `t`.
  pub record Found (f : ℕ → Node) (k i d level offset : ℕ) (t : Block) : Type 0 where
    pub nodes : ℕ → Node
    pub index : ℕ
    pub rounds : ℕ
    pub cost : rounds + 2 ≤ 3 * 2 ^ k
    pub run :
        (fuel : ℕ)
        → search (plus rounds fuel) s (2 ^ e) visit (buddy_of lv n f) i (2 ^ d) level
          ≡ take_node s (2 ^ e) (buddy_of lv n nodes) index (level + k)
    pub inside : index < n
    pub position : index + 1 ≡ (i + 1) * 2 ^ k + offset
    pub marks : Marked lv n f k i d t index (update nodes index (used_node s (2 ^ e)))

  abbrev pub FoundAs : (ℕ → Node) → ℕ → ℕ → ℕ → ℕ → Option (ℕ × Block) → Type 0
  FoundAs f k i d level none = Unit
  FoundAs f k i d level (some (o, t)) = Found f k i d level o t

  -- A free node of the right size.
  Found-here :
      (f : ℕ → Node) (i d level : ℕ)
      → e ≡ d
      → d < 31
      → i < n
      → (f i).state ≡ node_unused
      → Found f zero i d level 0 (used s)
  unfolding search is_full
  Found-here f i d level eq small hi st = record {
    nodes = f;
    index = i;
    rounds = 1;
    cost = omega arith;
    run = λ fuel.
        let same : 2 ^ d ≡ 2 ^ e = two_pow_eq d e (omega arith) in
        let deep : level + zero ≡ level = omega arith in
        rw (get_state-ok lv n f i hi, st, same, deep) (ground arith);
    inside = hi;
    position = omega arith;
    marks = record {
      nodes = update f i (used_node s (2 ^ e));
      rounds = 0;
      cost = omega arith;
      run = λ fuel. refl;
      block = (ground arith, ground arith, let fits = pages_fit e d eq small in ground arith);
      same = λ x p. let ne = ne_of_not-Inside p in ground arith;
    };
  }

  module _ (f g : ℕ → Node) (k i d level : ℕ) (l r : Block)
      (step : (fuel : ℕ)
        → search (suc fuel) s (2 ^ e) visit (buddy_of lv n f) i (2 ^ suc d) level
          ≡ search fuel s (2 ^ e) visit (buddy_of lv n g) (i * 2 + 1) (2 ^ d) (level + 1))
      (hi : i * 2 + 2 < n) (hn : n ≤ 2 ^ 30) (st : (g i).state ≡ node_split)
      (same : (x : ℕ) → ¬ Inside i x → g x ≡ f x) where
    rebase :
        {t : Block} {j m : ℕ} {h : ℕ → Node}
        → Marked lv n g m i (suc d) t j h
        → Marked lv n f m i (suc d) t j h
    rebase m = record {
      nodes = m.nodes;
      rounds = m.rounds;
      cost = m.cost;
      run = m.run;
      block = m.block;
      same = λ x p. m.same x p ∙ same x p;
    }

    Found-left :
        (o : ℕ)
        → IsBlock g (i * 2 + 2) d r
        → Found g k (i * 2 + 1) d (level + 1) o l
        → Found f (suc k) i (suc d) level o (split l r)
    Found-left o hr m = record {
      nodes = m.nodes;
      index = m.index;
      rounds = suc m.rounds;
      cost = omega (arith, m.cost, two_pow_suc k, two_pow_pos k);
      run = λ fuel.
          step (plus m.rounds fuel)
          ∙ m.run fuel
          ∙ ap (take_node s (2 ^ e) (buddy_of lv n m.nodes) m.index) (omega arith);
      inside = m.inside;
      position = omega (arith, m.position, two_pow_suc k, ap (λ (t : ℕ). i * t) (two_pow_suc k));
      marks = rebase (Marked-left lv n g i hi hn k d l r m.index _ st hr m.marks);
    }

    Found-right :
        (o : ℕ)
        → IsBlock g (i * 2 + 1) d l
        → Passed lv n s (2 ^ e) g k (i * 2 + 1) (2 ^ d) (level + 1)
        → Found g k (i * 2 + 2) d (level + 1) o r
        → Found f (suc k) i (suc d) level (2 ^ k + o) (split l r)
    Found-right o hl p m = record {
      nodes = m.nodes;
      index = m.index;
      rounds = suc (plus p.rounds m.rounds);
      cost = omega (arith, p.cost, m.cost, two_pow_suc k, plus-eq-add p.rounds m.rounds);
      run = λ fuel.
          step (plus (plus p.rounds m.rounds) fuel)
          ∙ rw (plus_assoc p.rounds m.rounds fuel) (
              p.run (plus m.rounds fuel)
              ∙ after_left _ s (2 ^ e) _ i _ _ (omega arith)
              ∙ m.run fuel
              ∙ ap (take_node s (2 ^ e) (buddy_of lv n m.nodes) m.index) (omega arith));
      inside = m.inside;
      position = omega (arith, m.position, two_pow_suc k, ap (λ (t : ℕ). i * t) (two_pow_suc k));
      marks = rebase (Marked-right lv n g i hi hn k d l r m.index _ st hl m.marks);
    }

  -- A node that is split already.
  Found_split :
      (f : ℕ → Node) (k i d level : ℕ) (l r : Block)
      → Fits n e (suc k) (suc d) level
      → HasRoom n i (suc d)
      → IsBlock f i (suc d) (split l r)
      → (pl pr : Option (ℕ × Block)) → place k s l ≡ pl
      → is_full l && is_full r ≡ false
      → FoundAs f k (i * 2 + 1) d (level + 1) pl
      → FoundAs f k (i * 2 + 2) d (level + 1) pr
      → FoundAs f (suc k) i (suc d) level (in_left r pl (in_right k l pr))
  Found_split f k i d level l r fits room h (some (o, l')) pr el partly fl fr =
      Found-left f f k i d level l' r
        (λ fuel.
          search_down lv n s (2 ^ e) f fuel i d level room.0 fits.nodes (omega (arith, fits.depth))
            (size_ne lv n s e f fits) (rw partly at h.0))
        (HasRoom-lt n (i * 2 + 2) d room.2) fits.nodes (rw partly at h.0) (λ x p. refl) o h.2 fl
  Found_split f k i d level l r fits room h none (some (o, r')) el partly fl fr =
      Found-right f f k i d level l r'
        (λ fuel.
          search_down lv n s (2 ^ e) f fuel i d level room.0 fits.nodes (omega (arith, fits.depth))
            (size_ne lv n s e f fits) (rw partly at h.0))
        (HasRoom-lt n (i * 2 + 2) d room.2) fits.nodes (rw partly at h.0) (λ x p. refl) o h.1
        (search_fail lv n s e f k d (i * 2 + 1) (level + 1) l (Fits-down fits) room.1 h.1 el) fr
  Found_split f k i d level l r fits room h none none el partly fl fr = tt

  -- A free node is split first.
  search_split :
      (f : ℕ → Node) (fuel i d level : ℕ)
      → i * 2 + 2 < n
      → n ≤ 2 ^ 30
      → level < 2 ^ 31
      → 2 ^ e ≢ 2 ^ suc d
      → (f i).state ≡ node_unused
      → search (suc fuel) s (2 ^ e) visit (buddy_of lv n f) i (2 ^ suc d) level
        ≡ search fuel s
            (2 ^ e)
            visit
            (buddy_of lv n (split_nodes f i))
            (i * 2 + 1)
            (2 ^ d)
            (level + 1)
  unfolding search split_node
  search_split f fuel i d level hi hn hl ne st =
      let inner : (i * 2 + 1) % 2 ^ 64 ≡ i * 2 + 1 = omega arith in
      let outer : (i * 2 + 2) % 2 ^ 64 ≡ i * 2 + 2 = omega arith in
      let deeper : (level + 1) % 2 ^ 32 ≡ level + 1 = omega arith in
      rw
        (
          get_state-ok lv n f i (omega arith),
          st,
          inner,
          outer,
          deeper,
          two_pow_half d,
          set_state-ok lv n f i (omega arith) node_split,
          set_state-ok lv n (with_state f i node_split) (i * 2 + 1) (omega arith) node_unused,
          set_state-ok lv n (with_state (with_state f i node_split) (i * 2 + 1) node_unused)
              (i * 2 + 2) hi node_unused,
        )
        (ground arith)

  pub search_find :
      (f : ℕ → Node) (k d i level : ℕ) (t : Block)
      → Fits n e k d level
      → HasRoom n i d
      → IsBlock f i d t
      → FoundAs f k i d level (place k s t)
  unfolding place is_full
  search_find f zero d i level unused fits room h =
      Found-here f i d level (omega (arith, fits.height)) (omega (arith, fits.depth))
        (HasRoom-lt n i d room) h
  search_find f k d i level (used u) fits room h = tt
  search_find f zero d i level (split l r) fits room h = tt
  search_find f (suc k) zero i level t fits room h = absurd (omega (arith, fits.height))
  search_find f (suc k) (suc d) i level unused fits room h =
      let g = split_nodes f i in
      let h' = split-IsBlock f i d in
      subst (FoundAs f (suc k) i (suc d) level) (sym (place-unused (suc k) s)) (
        Found-left f g k i d level (tower k s) unused
          (λ fuel.
            search_split f fuel i d level (HasRoom-lt n (i * 2 + 2) d room.2) fits.nodes
              (omega (arith, fits.depth)) (size_ne lv n s e f fits) h)
          (HasRoom-lt n (i * 2 + 2) d room.2) fits.nodes h'.0 (split_nodes_ne f i) 0 h'.2
          (subst (FoundAs g k (i * 2 + 1) d (level + 1)) (place-unused k s)
            (search_find g k d (i * 2 + 1) (level + 1) unused (Fits-down fits) room.1 h'.1)))
  search_find f (suc k) (suc d) i level (split l r) fits room h =
      elim (Bool-cases (is_full l && is_full r)) [
        | inl full ↦
            subst (FoundAs f (suc k) i (suc d) level) (sym (place-full (suc k) s (split l r) full))
              tt
        | inr partly ↦
            Found_split f k i d level l r fits room h (place k s l) (place k s r) refl partly
              (search_find f k d (i * 2 + 1) (level + 1) l (Fits-down fits) room.1 h.1)
              (search_find f k d (i * 2 + 2) (level + 1) r (Fits-down fits) room.2 h.2)
      ]
