-- ===== src/Filename.antt =====
-- tid_to_filename in gt_kthread.c: the name of a log file.
-- `i` is an int: from 2^31 on the number is negative, and its one digit is counted down from '0'.
pub mod Digits
pub mod Test
use cfs_userspace.Prelude.{
  ℕ, zero, suc, ◌+◌, ◌-◌, ◌*◌, ◌/◌, ◌%◌, ◌^◌, List, [], ◌∷◌, ◌++◌, Option, none, some, ltb, leb,
  ◌==◌, if◌then◌else◌, set, replicate, Exec, ok, fault, diverged, ◌>>=◌,
}

-- The first loop: `do { size++; i = i/10; } while (i > 0)`. Ten rounds are enough for an int.
pub count_digits : ℕ → ℕ → Exec ℕ
count_digits zero i = fault diverged
count_digits (suc fuel) i =
    let rest = count_digits fuel (i / 10) in
    if i / 10 == 0 then ok 1 else (rest >>= λ n. ok (n + 1))

-- The second loop, at `j`, with the rounds that are left: the digits from the last to the first.
pub write_digits : ℕ → ℕ → ℕ → ℕ → List (Option ℕ) → List (Option ℕ)
write_digits zero size j i c = c
write_digits (suc left) size j i c =
    write_digits left size (j + 1) (i / 10) (set c (size - j - 1) (some (i % 10 + 48)))

-- The four assignments behind the loops.
abbrev pub write_suffix : ℕ → List (Option ℕ) → List (Option ℕ)
write_suffix size c =
    set (set (set (set c size (some b'.')) (size + 1) (some b't')) (size + 2) (some b'x'))
      (size + 3) (some b't')

-- The block that malloc gives, a cell for each byte, `none` as long as nothing is written to it.
pub tid_to_filename : ℕ → Exec (List (Option ℕ))
tid_to_filename n =
    if ltb n (2 ^ 31)
    then (do
      size ← count_digits 10 n
      ok (write_suffix size (write_digits size size 0 n (replicate (size + 4) none))))
    else ok (write_suffix 1 (set (replicate 5 none) 0 (some (48 - (2 ^ 32 - n) % 10))))
