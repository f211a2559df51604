-- ===== src/Buddy/Alloc/Fail.antt =====
-- The search through a block that has no room for the request.
use zalloc.Base.{
  ℕ, zero, suc, ◌+◌, ◌-◌, ◌*◌, ◌%◌, ◌^◌, ◌≤◌, ◌<◌, ◌≡◌, ◌∙◌, true, ◌&&◌, none, Run, ◌≢◌, arith,
  ◌==◌, if◌then◌else◌, Bool-cases, inl, inr, plus, plus_assoc, plus-eq-add, two_pow_suc,
  two_pow_pos, two_pow_mono, two_pow_lt, two_pow_half, two_pow_eq, two_pow_ne,
}
use zalloc.Buddy.State.{node_unused, node_split, Node, Buddy}
use zalloc.Buddy.Tree.{Block, unused, used, split, is_full, place, place-none}
use zalloc.Buddy.Repr.{IsBlock, HasRoom, HasRoom-lt, buddy_of, get_state-ok, parent-right}
use zalloc.Buddy.Alloc.{visit, climb, search, split_node, is_full_state}

-- What the search does once the node at `i` is of no use.
abbrev pub after : ℕ → ℕ → ℕ → Buddy → ℕ → ℕ → ℕ → Run (ℕ × Buddy)
after fuel s size b i length level =
    if i % 2 == 1
    then search fuel s size visit b ((i + 1) % 2 ^ 64) length level
    else search fuel s size climb b i length level

module _ (lv n s size : ℕ) (f : ℕ → Node) where
  -- The search reaches `after` at the same node, within so many rounds.
  pub record Passed (k i length level : ℕ) : Type 0 where
    pub rounds : ℕ
    pub cost : rounds + 2 ≤ 3 * 2 ^ k
    pub run :
        (fuel : ℕ)
        → search (plus rounds fuel) s size visit (buddy_of lv n f) i length level
          ≡ after fuel s size (buddy_of lv n f) i length level

  pub search_taken :
      (fuel i length level : ℕ)
      → i < n
      → size ≡ length
      → (f i).state ≢ node_unused
      → search (suc fuel) s size visit (buddy_of lv n f) i length level
        ≡ after fuel s size (buddy_of lv n f) i length level
  unfolding search
  search_taken fuel i length level hi e ne = rw (get_state-ok lv n f i hi) (ground arith)

  -- A node of the right size that is not free.
  pub Passed-taken :
      (i length level : ℕ)
      → i < n
      → size ≡ length
      → (f i).state ≢ node_unused
      → Passed zero i length level
  Passed-taken i length level hi e ne = record {
    rounds = 1;
    cost = omega arith;
    run = λ fuel. search_taken fuel i length level hi e ne;
  }

  -- A larger node that is full.
  pub Passed-full :
      (k i length level : ℕ)
      → i < n
      → size ≢ length
      → is_full_state (f i).state ≡ true
      → Passed k i length level
  unfolding search
  Passed-full k i length level hi ne e = record {
    rounds = 1;
    cost = omega (arith, two_pow_pos k);
    run = λ fuel. rw (get_state-ok lv n f i hi) (ground arith);
  }

  -- A larger node that is split: the search goes down to its left half.
  pub search_down :
      (fuel i d level : ℕ)
      → i < n
      → n ≤ 2 ^ 30
      → level < 2 ^ 31
      → size ≢ 2 ^ suc d
      → (f i).state ≡ node_split
      → search (suc fuel) s size visit (buddy_of lv n f) i (2 ^ suc d) level
        ≡ search fuel s size visit (buddy_of lv n f) (i * 2 + 1) (2 ^ d) (level + 1)
  unfolding search split_node
  search_down fuel i d level hi hn hl ne e =
      let inner : (i * 2 + 1) % 2 ^ 64 ≡ i * 2 + 1 = omega arith in
      let deeper : (level + 1) % 2 ^ 32 ≡ level + 1 = omega arith in
      rw (get_state-ok lv n f i hi, e, inner, deeper, two_pow_half d) (ground arith)

pub after_left :
    (fuel s size : ℕ) (b : Buddy) (i length level : ℕ)
    → i < 2 ^ 30
    → after fuel s size b (i * 2 + 1) length level
      ≡ search fuel s size visit b (i * 2 + 2) length level
after_left fuel s size b i length level h =
    let odd : (i * 2 + 1) % 2 ≡ 1 = omega arith in
    let step : (i * 2 + 1 + 1) % 2 ^ 64 ≡ i * 2 + 2 = omega arith in rw (odd, step)

-- Behind the right half the search climbs, and goes on behind the whole.
pub after_right :
    (fuel s size : ℕ) (b : Buddy) (i d level : ℕ)
    → i < 2 ^ 30
    → d < 31
    → level < 2 ^ 31
    → after (suc fuel) s size b (i * 2 + 2) (2 ^ d) (level + 1)
      ≡ after fuel s size b i (2 ^ suc d) level
unfolding search
after_right fuel s size b i d level h hd hl =
    let even : (i * 2 + 2) % 2 ≡ 0 = omega arith in
    let double : 2 ^ d * 2 % 2 ^ 64 ≡ 2 ^ suc d =
      omega (arith, two_pow_suc d, two_pow_mono d 31 (omega arith)) in
    let shallower : (level + 1 + 2 ^ 32 - 1) % 2 ^ 32 ≡ level = omega arith in
    rw (even, parent-right i h, double, shallower)

-- The parameters that the lemmas on a whole block share.
pub record Fits (n e : ℕ) (k d level : ℕ) : Type 0 where
  pub nodes : n ≤ 2 ^ 30
  pub height : d ≡ k + e
  pub depth : d + level < 31

pub Fits-down : {n e k d level : ℕ} → Fits n e (suc k) (suc d) level → Fits n e k d (level + 1)
Fits-down fits = record {
  nodes = fits.nodes;
  height = omega (arith, fits.height);
  depth = omega (arith, fits.depth);
}

module _ (lv n s e : ℕ) (f : ℕ → Node) where
  Passed-split :
      (k i d level : ℕ)
      → i < n
      → Fits n e (suc k) (suc d) level
      → (f i).state ≡ node_split
      → Passed lv n s (2 ^ e) f k (i * 2 + 1) (2 ^ d) (level + 1)
      → Passed lv n s (2 ^ e) f k (i * 2 + 2) (2 ^ d) (level + 1)
      → Passed lv n s (2 ^ e) f (suc k) i (2 ^ suc d) level
  Passed-split k i d level hi fits st l r = record {
    rounds = suc (plus l.rounds (plus r.rounds 1));
    cost = omega (
      arith,
      l.cost,
      r.cost,
      two_pow_suc k,
      plus-eq-add l.rounds (plus r.rounds 1),
      plus-eq-add r.rounds 1,
    );
    run = λ fuel.
        search_down lv n s (2 ^ e) f _ i d level hi fits.nodes (omega (arith, fits.depth))
          (omega (arith, two_pow_lt e (suc d) (omega (arith, fits.height)))) st
        ∙ rw (plus_assoc l.rounds (plus r.rounds 1) fuel, plus_assoc r.rounds 1 fuel)
            (l.run (plus r.rounds (suc fuel))
              ∙ after_left _ s (2 ^ e) _ i _ _ (omega (arith, fits.nodes))
              ∙ r.run (suc fuel)
              ∙ after_right fuel s (2 ^ e) _ i d level (omega (arith, fits.nodes))
                  (omega (arith, fits.depth)) (omega (arith, fits.depth)));
  }

  pub size_ne : {k d level : ℕ} → Fits n e (suc k) (suc d) level → 2 ^ e ≢ 2 ^ suc d
  size_ne {d} fits = two_pow_ne e (suc d) (omega (arith, fits.height))

  -- Where the first fit fails, the search passes the block by and changes nothing.
  pub search_fail :
      (k d i level : ℕ) (t : Block)
      → Fits n e k d level
      → HasRoom n i d
      → IsBlock f i d t
      → place k s t ≡ none
      → Passed lv n s (2 ^ e) f k i (2 ^ d) level
  unfolding place is_full
  search_fail k d i level unused fits room h p = cc
  search_fail zero d i level (used u) fits room h p =
      Passed-taken lv n s (2 ^ e) f i (2 ^ d) level (HasRoom-lt n i d room)
        (two_pow_eq e d (omega (arith, fits.height))) (omega (arith, h.0))
  search_fail zero zero i level (split l r) fits room h p = elim h [ ]
  search_fail zero (suc d) i level (split l r) fits room h p =
      Passed-taken lv n s (2 ^ e) f i (2 ^ suc d) level room.0
        (two_pow_eq e (suc d) (omega (arith, fits.height))) (ground arith)
  search_fail (suc k) d i level (used u) fits room h p =
      Passed-full lv n s (2 ^ e) f (suc k) i (2 ^ d) level (HasRoom-lt n i d room)
        (two_pow_ne e d (omega (arith, fits.height))) (ground arith)
  search_fail (suc k) zero i level (split l r) fits room h p = elim h [ ]
  search_fail (suc k) (suc d) i level (split l r) fits room h p =
      elim (Bool-cases (is_full l && is_full r)) [
        | inl full ↦
            Passed-full lv n s (2 ^ e) f (suc k) i (2 ^ suc d) level room.0
              (two_pow_ne e (suc d) (omega (arith, fits.height))) (ground arith)
        | inr partly ↦
            let (pl, pr) = place-none k s l r p in
            let deeper = Fits-down fits in
            Passed-split k i d level room.0 fits (rw partly at h.0)
              (search_fail k d (i * 2 + 1) (level + 1) l deeper room.1 h.1 pl)
              (search_fail k d (i * 2 + 2) (level + 1) r deeper room.2 h.2 pr)
      ]
