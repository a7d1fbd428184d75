-- ===== src/Spinlock/Exclusion.antt =====
-- Mutual exclusion of Spinlock.cpp over every interleaving of its atomic steps.
use nova_hypervisor.Base.{ℕ, ◌≤◌, ◌≡◌, refl, Bool, true, false, arith}
use nova_hypervisor.Spinlock.{
  Pc, owner, exchanging, checking, pausing, Move, call, win, lose, pass, fail, retry, unlock,
  System, Step, pick, initial, Reach, start, later, update, max_wait,
}
use nova_hypervisor.Spinlock.Backoff.{backoff_le}

-- A thread holds the word from the exchange that found 0 to its `Unlock`.
abbrev pub holds : Pc → Bool
holds (checking _) = true
holds owner = true
holds _ = false

-- The local `wait` of a thread in `Lock`.
abbrev pub IsShortWait : Pc → Type 0
IsShortWait (exchanging w) = w ≤ max_wait
IsShortWait (checking w) = w ≤ max_wait
IsShortWait (pausing w) = w ≤ max_wait
IsShortWait _ = Unit {0}

pub record Inv (s : System) : Type 0 where
  pub word : s.lock ≤ 1
  pub taken : (i : ℕ) → holds (s.pc i) ≡ true → s.lock ≡ 1
  pub alone : (i j : ℕ) → holds (s.pc i) ≡ true → holds (s.pc j) ≡ true → i ≡ j
  pub kept : s.lock ≡ 1 → (i : ℕ) × (holds (s.pc i) ≡ true)
  pub short : (i : ℕ) → IsShortWait (s.pc i)

module _ {s : System} (inv : Inv s) (i : ℕ) where
  Move-Inv :
      {l : ℕ} {p p' : Pc}
      → Move s.lock p l p'
      → s.pc i ≡ p
      → Inv (record { lock = l; pc = update s.pc i p' })
  Move-Inv call e = record {
    word = inv.word;
    taken = λ j h. ground (arith, inv.taken j);
    alone = λ j k h g. ground (arith, inv.alone j k);
    kept = λ h. let (j, held) = inv.kept h in (j, ground arith);
    short = λ j. ground (arith, inv.short j);
  }
  Move-Inv (win z) e = record {
    word = omega arith;
    taken = λ j h. refl;
    alone = λ j k h g. ground (arith, inv.taken j, inv.taken k);
    kept = λ h. (i, ground arith);
    short = λ j. ground (arith, inv.short j, inv.short i);
  }
  Move-Inv (lose nz) e = record {
    word = omega arith;
    taken = λ j h. refl;
    alone = λ j k h g. ground (arith, inv.alone j k);
    kept = λ h. let (j, held) = inv.kept (omega (arith, inv.word)) in (j, ground arith);
    short = λ j. ground (arith, inv.short j, inv.short i);
  }
  Move-Inv (pass nz) e = record {
    word = inv.word;
    taken = λ j h. ground (arith, inv.taken j, inv.taken i);
    alone = λ j k h g. ground (arith, inv.alone j k, inv.alone i k, inv.alone j i);
    kept = λ h. (i, ground arith);
    short = λ j. ground (arith, inv.short j);
  }
  Move-Inv (fail z) e = absurd (ground (arith, inv.taken i))
  Move-Inv (retry {wait = w}) e = record {
    word = inv.word;
    taken = λ j h. ground (arith, inv.taken j);
    alone = λ j k h g. ground (arith, inv.alone j k);
    kept = λ h. let (j, held) = inv.kept h in (j, ground arith);
    short = λ j. ground (arith, inv.short j, backoff_le w);
  }
  Move-Inv unlock e = record {
    word = omega arith;
    taken = λ j h. absurd (ground (arith, inv.alone i j));
    alone = λ j k h g. ground (arith, inv.alone i j, inv.alone i k);
    kept = λ h. absurd (omega arith);
    short = λ j. ground (arith, inv.short j);
  }

Step-Inv : {s t : System} → Step s t → Inv s → Inv t
Step-Inv (pick i mv) inv = Move-Inv inv i mv refl

initial-Inv : Inv initial
initial-Inv = record {
  word = omega arith;
  taken = λ i h. cc;
  alone = λ i j h g. cc;
  kept = λ h. absurd (omega arith);
  short = λ i. tt;
}

pub Reach-Inv : {s : System} → Reach s → Inv s
Reach-Inv start = initial-Inv
Reach-Inv (later r st) = Step-Inv st (Reach-Inv r)

-- In every reachable state at most one thread is past `Lock`, and the word is 1 then.
pub mutual_exclusion :
    {s : System} → Reach s → (i j : ℕ) → s.pc i ≡ owner → s.pc j ≡ owner → (i ≡ j) × (s.lock ≡ 1)
mutual_exclusion r i j p q =
    let inv = Reach-Inv r in (ground (arith, inv.alone i j), ground (arith, inv.taken i))

-- What the word says of the threads.
abbrev pub WordCounts : System → Type 0
WordCounts s =
    (s.lock ≤ 1)
    × (s.lock ≡ 1 → (i : ℕ) × (holds (s.pc i) ≡ true))
    × ((i : ℕ) → holds (s.pc i) ≡ true → s.lock ≡ 1)
    × ((i : ℕ) → IsShortWait (s.pc i))

-- In every reachable state the word is 0 or 1; it is 1 exactly when some thread has won the
-- exchange and has not unlocked yet, so a thread between the two tests of `DoLock` finds the
-- word set; and every local `wait` of a thread is at most `MAX_WAIT`.
pub lock_word : {s : System} → Reach s → WordCounts s
lock_word r = let inv = Reach-Inv r in (inv.word, inv.kept, inv.taken, inv.short)
