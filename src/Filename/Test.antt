-- ===== src/Filename/Test.antt =====
-- test.c: itoa, which repeats tid_to_filename, and the main that tries it.
use cfs_userspace.Prelude.{
  ℕ, ◌+◌, ◌-◌, ◌%◌, ◌^◌, ◌≡◌, refl, List, [], ◌∷◌, map, Option, none, some, Exec, ok, fault, ◌>>=◌,
  ltb, if◌then◌else◌, replicate, set, Bool-cases, inl, inr,
}
use cfs_userspace.Filename.{count_digits, write_digits, write_suffix, tid_to_filename}

-- The size that it prints, and the block.
pub itoa : ℕ → Exec (ℕ × List (Option ℕ))
itoa n =
    if ltb n (2 ^ 31)
    then (do
      size ← count_digits 10 n
      ok (size, write_suffix size (write_digits size size 0 n (replicate (size + 4) none))))
    else ok (1, write_suffix 1 (set (replicate 5 none) 0 (some (48 - (2 ^ 32 - n) % 10))))

-- The blocks that main prints, one after the other.
pub test_main : Exec (List (List (Option ℕ)))
test_main = do
  (size_a, a) ← itoa 22
  (size_b, b) ← itoa 200
  (size_c, c) ← itoa 1912382
  (size_d, d) ← itoa 0
  ok (a ∷ b ∷ c ∷ d ∷ [])

abbrev pub block_of : Exec (ℕ × List (Option ℕ)) → Exec (List (Option ℕ))
block_of m = m >>= λ (size, c). ok c

-- The copy writes the same block.
pub itoa_lem : (n : ℕ) → block_of (itoa n) ≡ tid_to_filename n
unfolding itoa tid_to_filename
itoa_lem n = elim (Bool-cases (ltb n (2 ^ 31))) [
  | inl small ↦ rw small (same (count_digits 10 n))
  | inr large ↦ rw large refl
]
  where
    same :
        (m : Exec ℕ)
        → ((m >>= λ size.
              ok (size, write_suffix size (write_digits size size 0 n (replicate (size + 4) none))))
            >>= λ (size, c). ok c)
          ≡ (m >>= λ size.
              ok (write_suffix size (write_digits size size 0 n (replicate (size + 4) none))))
    same (ok size) = refl
    same (fault f) = refl

test_main_lem :
    test_main
    ≡ ok (
        map some (b'2' ∷ b'2' ∷ b'.' ∷ b't' ∷ b'x' ∷ b't' ∷ [])
        ∷ map some (b'2' ∷ b'0' ∷ b'0' ∷ b'.' ∷ b't' ∷ b'x' ∷ b't' ∷ [])
        ∷ map some (b'1' ∷ b'9' ∷ b'1' ∷ b'2' ∷ b'3' ∷ b'8' ∷ b'2' ∷ b'.' ∷ b't' ∷ b'x' ∷ b't' ∷ [])
        ∷ map some (b'0' ∷ b'.' ∷ b't' ∷ b'x' ∷ b't' ∷ [])
        ∷ [])
unfolding test_main itoa count_digits write_digits
test_main_lem = refl
