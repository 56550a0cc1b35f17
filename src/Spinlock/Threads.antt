-- ===== src/Spinlock/Threads.antt =====
-- Any number of threads over one lock word, interleaved between the accesses to that word:
-- the loop of gt_actual_spinlock and the test and write of gt_spin_unlock in gt_spinlock.c.
use cfs_userspace.Prelude.{
  ℕ, ◌≡◌, ◌≢◌, refl, Bool, true, false, store, arith, ◌⊎◌, inl, inr, Bool-cases,
}

-- Where a thread stands: outside, before the volatile read of the loop, before the `xchg`, between
-- the return of `gt_spin_lock` and the call of `gt_spin_unlock`, before the read of
-- `spinlock->locked` there, and before the write.
pub data Pc : Type 0 where
  outside reading exchanging critical testing writing : Pc

-- One access by one thread. The argument is the lock word.
pub data Move (locked : ℕ) : Pc → ℕ → Pc → Type 0 where
  call_lock : Move locked outside locked reading
  busy : locked ≢ 0 → Move locked reading locked reading
  free : locked ≡ 0 → Move locked reading locked exchanging
  -- `xchg` puts 1 into the word and its old value into `sp_val`
  lost : locked ≢ 0 → Move locked exchanging 1 reading
  won : locked ≡ 0 → Move locked exchanging 1 critical
  call_unlock : Move locked critical locked testing
  held : locked ≢ 0 → Move locked testing locked writing
  unheld : locked ≡ 0 → Move locked testing locked outside
  unlock : Move locked writing 0 outside

pub record System : Type 0 where
  pub word : ℕ
  pub pc : ℕ → Pc

pub data Step (s : System) : System → Type 0 where
  pick :
      (i : ℕ) {word : ℕ} {p : Pc}
      → Move s.word (s.pc i) word p
      → Step s (record { word = word; pc = store s.pc i p })

abbrev pub start : System
start = record { word = 0; pc = λ _. outside }

pub data Reach : System → Type 0 where
  here : Reach start
  next : {s t : System} → Reach s → Step s t → Reach t

-- The thread has the lock.
abbrev pub holds : Pc → Bool
holds critical = true
holds testing = true
holds writing = true
holds _ = false

pub record Inv (word : ℕ) (pc : ℕ → Pc) : Type 0 where
  pub taken : (i : ℕ) → holds (pc i) ≡ true → word ≡ 1
  pub unique : (i j : ℕ) → holds (pc i) ≡ true → holds (pc j) ≡ true → i ≡ j
  pub owned : (word ≡ 0) ⊎ ((i : ℕ) × (holds (pc i) ≡ true))

module _ {word : ℕ} {pc : ℕ → Pc} (inv : Inv word pc) (i : ℕ) where
  Move-taken :
      {p p' : Pc} {word' : ℕ}
      → Move word p word' p'
      → pc i ≡ p
      → (j : ℕ) → holds (store pc i p' j) ≡ true
      → word' ≡ 1
  unfolding store
  Move-taken call_lock e j h = ground (arith, inv.taken j, inv.taken i)
  Move-taken (busy g) e j h = ground (arith, inv.taken j)
  Move-taken (free g) e j h = ground (arith, inv.taken j)
  Move-taken (lost g) e j h = refl
  Move-taken (won g) e j h = refl
  Move-taken call_unlock e j h = ground (arith, inv.taken j, inv.taken i)
  Move-taken (held g) e j h = ground (arith, inv.taken j, inv.taken i)
  Move-taken (unheld g) e j h = ground (arith, inv.taken j)
  Move-taken unlock e j h = ground (arith, inv.unique i j)

  Move-unique :
      {p p' : Pc} {word' : ℕ}
      → Move word p word' p'
      → pc i ≡ p
      → (j k : ℕ) → holds (store pc i p' j) ≡ true
      → holds (store pc i p' k) ≡ true
      → j ≡ k
  unfolding store
  Move-unique (won g) e j k hj hk = ground (arith, inv.taken j, inv.taken k)
  Move-unique call_lock e j k hj hk = ground (arith, inv.unique j k)
  Move-unique (busy g) e j k hj hk = ground (arith, inv.unique j k)
  Move-unique (free g) e j k hj hk = ground (arith, inv.unique j k)
  Move-unique (lost g) e j k hj hk = ground (arith, inv.unique j k)
  Move-unique call_unlock e j k hj hk = ground (arith, inv.unique j k)
  Move-unique (held g) e j k hj hk = ground (arith, inv.unique j k)
  Move-unique (unheld g) e j k hj hk = ground (arith, inv.unique j k)
  Move-unique unlock e j k hj hk = ground (arith, inv.unique j k)

  Move-owned :
      {p p' : Pc} {word' : ℕ}
      → Move word p word' p'
      → pc i ≡ p
      → (word' ≡ 0) ⊎ ((j : ℕ) × (holds (store pc i p' j) ≡ true))
  unfolding store
  Move-owned unlock e = inl refl
  Move-owned (won g) e = inr (i, ground arith)
  Move-owned (unheld g) e = inl g
  Move-owned call_unlock e = inr (i, ground arith)
  Move-owned (held g) e = inr (i, ground arith)
  Move-owned (free g) e = inl g
  Move-owned call_lock e = elim inv.owned [ inl h ↦ inl h | inr w ↦ inr (w.0, ground (arith, w.1)) ]
  Move-owned (busy g) e = elim inv.owned [ inl h ↦ inl h | inr w ↦ inr (w.0, ground (arith, w.1)) ]
  Move-owned (lost g) e = elim inv.owned [
    | inl h ↦ absurd (g h)
    | inr w ↦ inr (w.0, ground (arith, w.1))
  ]

Step-Inv : {s t : System} → Step s t → Inv s.word s.pc → Inv t.word t.pc
Step-Inv (pick i mv) inv = record {
  taken = Move-taken inv i mv refl;
  unique = Move-unique inv i mv refl;
  owned = Move-owned inv i mv refl;
}

pub Reach-Inv : {s : System} → Reach s → Inv s.word s.pc
Reach-Inv here = record { taken = λ i h. cc; unique = λ i j h k. cc; owned = inl refl }
Reach-Inv (next r st) = Step-Inv st (Reach-Inv r)

-- In every state that interleaved threads reach, two threads that have the lock are the same
-- thread.
pub mutual_exclusion :
    (s : System) → Reach s → (i j : ℕ) → holds (s.pc i) ≡ true → holds (s.pc j) ≡ true → i ≡ j
mutual_exclusion s r = (Reach-Inv r).unique

unlock_move :
    {locked word : ℕ} {p p' : Pc}
    → Move locked p word p'
    → p ≡ writing
    → (word ≡ 0) × (p' ≡ outside)
unlock_move call_lock e = absurd (cc)
unlock_move (busy g) e = absurd (cc)
unlock_move (free g) e = absurd (cc)
unlock_move (lost g) e = absurd (cc)
unlock_move (won g) e = absurd (cc)
unlock_move call_unlock e = absurd (cc)
unlock_move (held g) e = absurd (cc)
unlock_move (unheld g) e = absurd (cc)
unlock_move unlock e = (refl, refl)

-- In every state that is reached and in which thread i is before the write of gt_spin_unlock, the
-- lock word is 1; the access that i makes next leaves the word 0 and i outside, and no thread has
-- the lock then.
pub unlock_frees :
    (s : System) (i word : ℕ) (p : Pc)
    → Reach s
    → s.pc i ≡ writing
    → Move s.word (s.pc i) word p
    → (s.word ≡ 1) × (word ≡ 0) × (p ≡ outside) × ((j : ℕ) → holds (store s.pc i p j) ≡ false)
unfolding store
unlock_frees s i word p r e mv =
    let (freed, left) = unlock_move mv e in
    ((Reach-Inv r).taken i (ground arith), freed, left, others left)
  where
    others : p ≡ outside → (j : ℕ) → holds (store s.pc i p j) ≡ false
    others left j = elim (Bool-cases (holds (store s.pc i p j))) [
      | inl h ↦ ground (arith, (Reach-Inv r).unique i j)
      | inr h ↦ h
    ]

-- In every state that is reached and in which the word is not 0, some thread has the lock.
pub locked_by_someone : (s : System) → Reach s → s.word ≢ 0 → (i : ℕ) × (holds (s.pc i) ≡ true)
locked_by_someone s r h = elim (Reach-Inv r).owned [ inl e ↦ absurd (h e) | inr w ↦ w ]
