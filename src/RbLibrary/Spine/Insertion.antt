-- ===== src/RbLibrary/Spine/Insertion.antt =====
-- A node placed into a spine, by any comparison and by one that orders the threads.
use cfs_userspace.Prelude.{
  ℕ, ◌≤◌, ◌<◌, ◌≡◌, ◌≢◌, refl, ap, ◌∙◌, ◌⊎◌, inl, inr, List, [], ◌∷◌, ◌++◌, All, All-imp,
  All-insert, Distinct, Distinct-insert, SortedBy, head_or, store, store_other, arith, subst,
  Bool-cases, Bool, true, false,
}
use cfs_userspace.RbLibrary.{inorder, Comparison, Agrees}
use cfs_userspace.RbLibrary.Spine.{
  Spine, shape_of, is_greater, place_in, insert_in, IsSpine, inorder-shape_of,
}

-- The place of a new node: no key before it is greater, and the key behind it is.
record Place (against : ℕ → Comparison) (z : ℕ) (ns : List ℕ) : Type 0 where
  xs : List ℕ
  ys : List ℕ
  old : ns ≡ xs ++ ys
  placed : place_in against z ns ≡ xs ++ z ∷ ys
  low : All (λ n. is_greater (against n) ≡ false) xs
  high : (ys ≡ []) ⊎ (is_greater (against (head_or ys z)) ≡ true)

place : (against : ℕ → Comparison) (z : ℕ) (ns : List ℕ) → Place against z ns
place against z [] = record {
  xs = [];
  ys = [];
  old = refl;
  placed = refl;
  low = tt;
  high = inl refl;
}
place against z (x ∷ ns) = elim (Bool-cases (is_greater (against x))) [
  | inl g ↦ record {
    xs = [];
    ys = x ∷ ns;
    old = refl;
    placed = ground arith;
    low = tt;
    high = inr g;
  }
  | inr g ↦
      let w = place against z ns in
      record {
        xs = x ∷ w.xs;
        ys = w.ys;
        old = ap (◌∷◌ x) w.old;
        placed = ground (arith, w.placed);
        low = (g, w.low);
        high = w.high;
      }
]

-- In a sorted list all that follow a greater key are greater.
high-All :
    (rank : ℕ → ℕ) (k z : ℕ) (greater_by : ℕ → Bool) (ys : List ℕ)
    → ((n : ℕ) → greater_by n ≡ true → k < rank n)
    → SortedBy rank ys
    → (ys ≡ []) ⊎ (greater_by (head_or ys z) ≡ true)
    → All (λ n. k < rank n) ys
high-All rank k z g [] h s c = tt
high-All rank k z g (y ∷ ys) h s (inl e) = absurd (ground arith)
high-All rank k z g (y ∷ ys) h s (inr e) =
    (h y e, All-imp (λ n le. trans_lt k (rank y) (rank n) (h y e) le) ys s.0)
  where
    trans_lt : (a b c : ℕ) → a < b → b ≤ c → a < c
    trans_lt a b c p q = omega arith

SortedBy-right : (rank : ℕ → ℕ) (xs ys : List ℕ) → SortedBy rank (xs ++ ys) → SortedBy rank ys
SortedBy-right rank [] ys s = s
SortedBy-right rank (x ∷ xs) ys s = SortedBy-right rank xs ys s.1

module _ (cmp : ℕ → ℕ → Comparison) (t : Spine) (k : ℕ) (v : IsSpine t) where
  new-Place : Place (λ n. cmp (t.keys n) k) t.fresh t.nodes
  new-Place = place (λ n. cmp (t.keys n) k) t.fresh t.nodes

  unused : All (λ n. t.fresh ≢ n) t.nodes
  unused = All-imp (λ n lt e. absurd (omega arith)) t.nodes v.below

  pub insert_in-IsSpine : IsSpine (insert_in cmp t k)
  insert_in-IsSpine = record {
    above = rw new-Place.placed (
        All-insert t.fresh _ new-Place.xs new-Place.ys v.room
          (subst (All _) new-Place.old v.above));
    below = rw new-Place.placed (
        All-insert t.fresh _ new-Place.xs new-Place.ys (omega arith)
          (subst (All _) new-Place.old (All-imp (λ n lt. omega arith) t.nodes v.below)));
    distinct = rw new-Place.placed (
        Distinct-insert t.fresh new-Place.xs new-Place.ys (subst (All _) new-Place.old unused)
          (subst Distinct new-Place.old v.distinct));
    room = omega (arith, v.room);
  }

  pub insert_in-keys : All (λ n. store t.keys t.fresh k n ≡ t.keys n) t.nodes
  insert_in-keys = All-imp (λ n ne. store_other t.keys t.fresh n k ne) t.nodes unused

  pub insert_in-place :
      (rank : ℕ → ℕ)
      → Agrees cmp rank
      → SortedBy (λ n. rank (t.keys n)) t.nodes
      → (xs ys : List ℕ) × (inorder (shape_of t.nodes) ≡ xs ++ ys)
        × (inorder (shape_of (insert_in cmp t k).nodes) ≡ xs ++ t.fresh ∷ ys)
        × All (λ n. rank (t.keys n) ≤ rank k) xs
        × All (λ n. rank k < rank (t.keys n)) ys
  insert_in-place rank agrees sorted = (
    new-Place.xs,
    new-Place.ys,
    inorder-shape_of t.nodes ∙ new-Place.old,
    inorder-shape_of _ ∙ new-Place.placed,
    All-imp (λ n g. ground (arith, agrees (t.keys n) k)) new-Place.xs new-Place.low,
    high-All (λ n. rank (t.keys n)) (rank k) t.fresh (λ n. is_greater (cmp (t.keys n) k))
        new-Place.ys (λ n g. ground (arith, agrees (t.keys n) k))
        (SortedBy-right _ new-Place.xs new-Place.ys (subst (SortedBy _) new-Place.old sorted))
        new-Place.high,
  )
