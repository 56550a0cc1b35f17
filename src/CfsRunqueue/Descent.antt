-- ===== src/CfsRunqueue/Descent.antt =====
-- About get_leftmost and get_rightmost, the two searches of cfs_runqueue.c.
use cfs_userspace.Prelude.{
  ℕ, zero, suc, ◌≤◌, ◌≡◌, refl, List, [], ◌∷◌, map, ok, head?, get_last?, length, last_from,
  head?-map-append, get_last?-map-append, All-right, All-last_from, arith,
}
use cfs_userspace.RbLibrary.{
  RbLibrary, Shape, leaf, branch, inorder, Chain, size, left_spine, right_spine, Links-left_spine,
  Links-right_spine, length-left_spine-le, length-right_spine-le, last-left_spine, last-right_spine,
  Links, Links-ne_nil,
}
use cfs_userspace.CfsRunqueue.{descend, get_leftmost, get_rightmost, threads}

-- With a round for each node of the chain, the descent ends at the last of them.
descend-Chain :
    (next : ℕ → ℕ) (nil n m : ℕ) (ms : List ℕ) (fuel : ℕ)
    → Chain next nil n (m ∷ ms)
    → length (m ∷ ms) ≤ fuel
    → descend fuel next nil n ≡ ok (last_from m ms)
unfolding descend
descend-Chain next nil n m ms zero h f = absurd (omega arith)
descend-Chain next nil n m [] (suc fuel) h f = rw h.0 (ground arith)
descend-Chain next nil n m (k ∷ ms) (suc fuel) h f =
    rw h.0 (ground (arith, descend-Chain next nil (next m) k ms fuel h.2))

module _ (lib : RbLibrary) (t : lib.Tree) (valid : lib.Valid t) where
  open lib use {left, right, nil, root, key, shape}

  -- The nodes reach the fuel, and the sentinels are no nodes.
  leftmost_by_shape :
      (s : Shape)
      → Links (left t) (right t) (nil t) (left t (root t)) s
      → s ≡ shape t
      → get_leftmost lib t ≡ ok (head? (map (key t) (inorder s)))
  unfolding get_leftmost
  leftmost_by_shape leaf h e = ground (arith, lib.nonnull t valid)
  leftmost_by_shape (branch l m r) h e = rw (← e) (
      ground (
        arith,
        lib.nonnull t valid,
        descend-Chain (left t) (nil t) (left t (root t)) m (left_spine l) (size (branch l m r))
            (Links-left_spine _ _ _ _ (branch l m r) h) (length-left_spine-le (branch l m r)),
        last-left_spine m l,
        head?-map-append (key t) (inorder l) m (inorder r),
      ))

  rightmost_by_shape :
      (s : Shape)
      → Links (left t) (right t) (nil t) (left t (root t)) s
      → s ≡ shape t
      → get_rightmost lib t ≡ ok (get_last? (map (key t) (inorder s)))
  unfolding get_rightmost
  rightmost_by_shape leaf h e = ground (arith, lib.nonnull t valid)
  rightmost_by_shape (branch l m r) h e = rw (← e) (
      ground (
        arith,
        lib.nonnull t valid,
        descend-Chain (right t) (nil t) (left t (root t)) m (right_spine r) (size (branch l m r))
            (Links-right_spine _ _ _ _ (branch l m r) h) (length-right_spine-le (branch l m r)),
        last-right_spine m r,
        All-last_from _ m (inorder r)
            (All-right _ (inorder l) (m ∷ inorder r) (Links-ne_nil _ _ _ _ (branch l m r) h)),
        get_last?-map-append (key t) (inorder l) m (inorder r),
      ))

  -- `get_leftmost` ends, with the first thread of the tree; NULL for the empty tree.
  pub get_leftmost_lem : get_leftmost lib t ≡ ok (head? (threads lib t))
  get_leftmost_lem = leftmost_by_shape (shape t) (lib.linked t valid) refl

  -- `get_rightmost` ends, with the last thread of the tree; NULL for the empty tree.
  pub get_rightmost_lem : get_rightmost lib t ≡ ok (get_last? (threads lib t))
  get_rightmost_lem = rightmost_by_shape (shape t) (lib.linked t valid) refl
