-- ===== src/Filename/Digits.antt =====
-- About tid_to_filename in gt_kthread.c: the bytes of its block.
use cfs_userspace.Prelude.{
  ℕ, zero, suc, ◌+◌, ◌-◌, ◌*◌, ◌/◌, ◌%◌, ◌^◌, ◌≤◌, ◌<◌, ◌≡◌, refl, sym, ap, ◌∙◌, List, [], ◌∷◌,
  ◌++◌, map, Option, none, some, ok, arith, length, length-append, All, All-append, set, replicate,
  subst, length-map, lt→ltb, dec_lt, ◌⊎◌, inl, inr,
}
use mathlib.Core.List.{append_assoc, map-append}
use native.Mathlib.Nat.{pow-suc, add-zero}
use cfs_userspace.Filename.{count_digits, write_digits, write_suffix, tid_to_filename}

-- The decimal digits of a number as characters, with `n` of them.
pub digits_of : ℕ → ℕ → List ℕ
digits_of zero i = []
digits_of (suc n) i = digits_of n (i / 10) ++ (i % 10 + 48) ∷ []

-- Reading them back.
pub value_of : ℕ → List ℕ → ℕ
value_of acc [] = acc
value_of acc (d ∷ ds) = value_of (acc * 10 + (d - 48)) ds

value_of-append :
    (acc : ℕ) (xs ys : List ℕ) → value_of acc (xs ++ ys) ≡ value_of (value_of acc xs) ys
unfolding value_of
value_of-append acc [] ys = refl
value_of-append acc (x ∷ xs) ys = value_of-append (acc * 10 + (x - 48)) xs ys

value_of-digits_of : (n i : ℕ) → i < 10 ^ n → value_of 0 (digits_of n i) ≡ i
unfolding digits_of value_of
value_of-digits_of zero i h = omega arith
value_of-digits_of (suc n) i h =
    value_of-append 0 (digits_of n (i / 10)) ((i % 10 + 48) ∷ [])
    ∙ rw (value_of-digits_of n (i / 10) (omega (arith, pow-suc 10 n))) (omega arith)

length-digits_of : (n i : ℕ) → length (digits_of n i) ≡ n
unfolding digits_of
length-digits_of zero i = refl
length-digits_of (suc n) i =
    omega (
      arith,
      length-append (digits_of n (i / 10)) ((i % 10 + 48) ∷ []),
      length-digits_of n (i / 10),
    )

digits_of-char : (n i : ℕ) → All (λ d. (48 ≤ d) × (d ≤ 57)) (digits_of n i)
unfolding digits_of
digits_of-char zero i = tt
digits_of-char (suc n) i =
    All-append _ (digits_of n (i / 10)) ((i % 10 + 48) ∷ []) (digits_of-char n (i / 10))
      (omega arith, tt)

-- How many digits the first loop counts.
record Counted (fuel i : ℕ) : Type 0 where
  size : ℕ
  returned : count_digits fuel i ≡ ok size
  enough : i < 10 ^ size
  some_digit : 0 < size
  needed : (size ≡ 1) ⊎ (10 ^ (size - 1) ≤ i)

needed_step : (s i : ℕ) → 0 < s → 10 ≤ i → (s ≡ 1) ⊎ (10 ^ (s - 1) ≤ i / 10) → 10 ^ (suc s - 1) ≤ i
needed_step zero i pos big h = absurd (omega arith)
needed_step (suc zero) i pos big h = omega arith
needed_step (suc (suc s)) i pos big (inl e) = absurd (omega arith)
needed_step (suc (suc s)) i pos big (inr h) =
    let e : suc (suc (suc s)) - 1 ≡ suc (suc s) = omega arith in
    let e' : suc (suc s) - 1 ≡ suc s = omega arith in
    rw e (omega (arith, pow-suc 10 (suc s), (rw e' at h)))

counted : (fuel i : ℕ) → i < 10 ^ fuel → 0 < fuel → Counted fuel i
unfolding count_digits
counted zero i h pos = absurd (omega arith)
counted (suc fuel) i h pos = elim (dec_lt i 10) [
  | yes one ↦ record {
    size = 1;
    returned = ground arith;
    enough = omega arith;
    some_digit = omega arith;
    needed = inl refl;
  }
  | no more ↦
      let w = counted fuel (i / 10) (omega (arith, pow-suc 10 fuel)) (fuel_left fuel i h more) in
      record {
        size = suc w.size;
        returned = ground (arith, w.returned);
        enough = omega (arith, pow-suc 10 w.size, w.enough);
        some_digit = omega arith;
        needed = inr (needed_step w.size i w.some_digit (omega arith) w.needed);
      }
]
  where
    fuel_left : (f i : ℕ) → i < 10 ^ suc f → ¬ (i < 10) → 0 < f
    fuel_left zero i h m = absurd (omega arith)
    fuel_left (suc f) i h m = omega arith

module _ {A : Type 0} where
  set-append :
      (xs ys : List A) (k n : ℕ) (v : A)
      → n ≡ length xs
      → set (xs ++ ys) (n + k) v ≡ xs ++ set ys k v
  set-append [] ys k n v e = let z : n + k ≡ k = omega arith in rw z
  set-append (x ∷ xs) ys k zero v e = absurd (omega arith)
  set-append (x ∷ xs) ys k (suc n) v e =
      let z : suc n + k ≡ suc (n + k) = omega arith in
      rw z (ap (◌∷◌ x) (set-append xs ys k n v (omega arith)))

  replicate-append : (n m : ℕ) (a : A) → replicate (n + m) a ≡ replicate n a ++ replicate m a
  replicate-append zero m a = let z : 0 + m ≡ m = omega arith in rw z
  replicate-append (suc n) m a =
      let z : suc n + m ≡ suc (n + m) = omega arith in rw z (ap (◌∷◌ a) (replicate-append n m a))

  length-replicate : (n : ℕ) (a : A) → length (replicate n a) ≡ n
  length-replicate zero a = refl
  length-replicate (suc n) a = ap suc (length-replicate n a)

  set-replicate :
      (l : ℕ) (a v : A) (ys : List A)
      → set (replicate (suc l) a ++ ys) l v ≡ replicate l a ++ v ∷ ys
  set-replicate zero a v ys = refl
  set-replicate (suc l) a v ys = ap (◌∷◌ a) (set-replicate l a v ys)

-- The second loop turns the free cells into digits, from the last to the first.
write_digits_lem :
    (left size j i : ℕ) (ys : List (Option ℕ))
    → size ≡ j + left
    → write_digits left size j i (replicate left none ++ ys) ≡ map some (digits_of left i) ++ ys
unfolding write_digits digits_of
write_digits_lem zero size j i ys e = refl
write_digits_lem (suc left) size j i ys e =
    let at : size - j - 1 ≡ left = omega arith in
    rw (at, set-replicate left none (some (i % 10 + 48)) ys)
      (write_digits_lem left size (j + 1) (i / 10) (some (i % 10 + 48) ∷ ys) (omega arith)
        ∙ simp (map-append, append_assoc))

pub suffix : List ℕ
suffix = b'.' ∷ b't' ∷ b'x' ∷ b't' ∷ []

length-chars : (n i : ℕ) → n ≡ length (map some (digits_of n i))
length-chars n i = sym (length-map some (digits_of n i) ∙ length-digits_of n i)

-- The four bytes of the suffix go behind the digits.
write_suffix_lem :
    (size : ℕ) (xs : List (Option ℕ))
    → size ≡ length xs
    → write_suffix size (xs ++ replicate 4 none) ≡ xs ++ map some suffix
unfolding suffix
write_suffix_lem size xs e =
    let first : set (xs ++ replicate 4 none) size (some b'.') ≡ xs ++ some b'.' ∷ replicate 3 none =
      subst (λ k. set (xs ++ replicate 4 none) k (some b'.') ≡ xs ++ some b'.' ∷ replicate 3 none)
        (add-zero size) (set-append xs (replicate 4 none) 0 size (some b'.') e) in
    rw (first, set-append xs _ 1 size _ e, set-append xs _ 2 size _ e, set-append xs _ 3 size _ e)

-- For an id below 2^31 tid_to_filename writes every byte of its block: the digits of the id, as
-- many as size says, and then `.txt`. The digits read back as the id, and the first is not 0
-- unless there is just one.
pub tid_to_filename_lem :
    (n : ℕ)
    → n < 2 ^ 31
    → (size : ℕ) × (tid_to_filename n ≡ ok (map some (digits_of size n ++ suffix)))
      × (value_of 0 (digits_of size n) ≡ n)
      × ((size ≡ 1) ⊎ (10 ^ (size - 1) ≤ n))
unfolding tid_to_filename
tid_to_filename_lem n h =
    let w = counted 10 n (omega arith) (omega arith) in
    (
      w.size,
      rw (
        lt→ltb n (2 ^ 31) h,
        w.returned,
        replicate-append {A = Option ℕ} w.size 4 none,
        write_digits_lem w.size w.size 0 n (replicate 4 none) (omega arith),
        write_suffix_lem w.size _ (length-chars w.size n),
        map-append,
      ),
      value_of-digits_of w.size n w.enough,
      w.needed,
    )
