-- ===== src/CfsRunqueue/Printing.antt =====
-- print_all in cfs_runqueue.c: what it prints, as a list.
use cfs_userspace.Prelude.{
  ℕ, zero, suc, ◌+◌, ◌≡◌, ◌≢◌, ◌≤◌, refl, ap, ◌∙◌, List, [], ◌∷◌, ◌++◌, Exec, ok, fault, diverged,
  ◌>>=◌, ◌==◌, if◌then◌else◌, arith, false,
}
use mathlib.Core.Path.{ap₂}
use cfs_userspace.RbLibrary.{RbLibrary, Shape, leaf, branch, inorder, Links, size, size-branch}

pub data Token : Type 0 where
  l r : Token
  t : ℕ → Token

pub print_all : ℕ → (left right : ℕ → ℕ) → (nil node : ℕ) → Exec (List Token)
print_all zero left right nil node = fault diverged
print_all (suc fuel) left right nil node =
    let before = print_all fuel left right nil (left node) in
    let behind = print_all fuel left right nil (right node) in
    if node == nil
    then ok []
    else (before >>= λ xs. behind >>= λ ys. ok (l ∷ xs ++ t node ∷ r ∷ ys))

-- The nodes that were printed.
pub nodes_of : List Token → List ℕ
nodes_of [] = []
nodes_of (l ∷ out) = nodes_of out
nodes_of (r ∷ out) = nodes_of out
nodes_of (t n ∷ out) = n ∷ nodes_of out

nodes_of-append : (xs ys : List Token) → nodes_of (xs ++ ys) ≡ nodes_of xs ++ nodes_of ys
unfolding nodes_of
nodes_of-append [] ys = refl
nodes_of-append (l ∷ xs) ys = nodes_of-append xs ys
nodes_of-append (r ∷ xs) ys = nodes_of-append xs ys
nodes_of-append (t n ∷ xs) ys = ap (◌∷◌ n) (nodes_of-append xs ys)

differs : (m n : ℕ) → m ≢ n → (m == n) ≡ false
differs m n ne = ground (arith, ne)

-- With fuel for each node and one more, the walk ends, and prints the nodes in their order.
print_all-inorder :
    (fuel : ℕ) (left right : ℕ → ℕ) (nil node : ℕ) (s : Shape)
    → Links left right nil node s
    → size s + 1 ≤ fuel
    → (out : List Token) × (print_all fuel left right nil node ≡ ok out)
      × (nodes_of out ≡ inorder s)
unfolding print_all nodes_of
print_all-inorder zero left right nil node s links few = absurd (omega arith)
print_all-inorder (suc fuel) left right nil node leaf links few =
    ([], rw links (ground arith), refl)
print_all-inorder (suc fuel) left right nil node (branch a m b) links few =
    let (xs, first, ex) =
      print_all-inorder fuel left right nil (left m) a links.2
        (omega (arith, few, size-branch a m b)) in
    let (ys, second, ey) =
      print_all-inorder fuel left right nil (right m) b links.3
        (omega (arith, few, size-branch a m b)) in
    (
      l ∷ xs ++ t m ∷ r ∷ ys,
      rw (links.0, first, second, differs m nil links.1) refl,
      nodes_of-append xs (t m ∷ r ∷ ys) ∙ ap₂ ◌++◌ ex (ap (◌∷◌ m) ey),
    )

-- print_all of the whole tree ends, and prints its nodes in order.
pub print_all_lem :
    (lib : RbLibrary) (tree : lib.Tree)
    → lib.Valid tree
    → (out : List Token) × (print_all
          (size (lib.shape tree) + 1)
          (lib.left tree)
          (lib.right tree)
          (lib.nil tree)
          (lib.left tree (lib.root tree))
        ≡ ok out)
      × (nodes_of out ≡ inorder (lib.shape tree))
print_all_lem lib tree valid =
    print_all-inorder (size (lib.shape tree) + 1) (lib.left tree) (lib.right tree) (lib.nil tree)
      (lib.left tree (lib.root tree)) (lib.shape tree) (lib.linked tree valid) (omega arith)
