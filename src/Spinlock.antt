-- ===== src/Spinlock.antt =====
-- NovaHypervisor/Spinlock.cpp and Spinlock.h: the lock word, the three member functions as atomic
-- steps of a thread, and the interleavings of any number of threads.
pub mod Backoff
pub mod Exclusion
mod Tests
use nova_hypervisor.Base.{ℕ, ◌*◌, ◌%◌, ◌^◌, ◌≡◌, ◌≢◌, refl, ltb, ◌==◌, if◌then◌else◌}

abbrev pub max_wait : ℕ
max_wait = 65536

-- `wait = wait * 2 > MAX_WAIT ? MAX_WAIT : wait * 2`, in 32-bit arithmetic.
unfoldable pub backoff : ℕ → ℕ
backoff wait = let double = wait * 2 % 2 ^ 32 in if ltb max_wait double then max_wait else double

-- Where a thread stands: outside of the lock; in `Lock` before the exchange of `DoLock`, or
-- between that exchange and its test `lock != 0`, or in the pauses after a failed `DoLock`, each
-- with the local `wait`; or after `Lock` has returned.
pub data Pc : Type 0 where
  outside owner : Pc
  exchanging checking pausing : ℕ → Pc

-- Only the exchange and `Unlock` write the lock word, and each does so atomically.
pub data Move : ℕ → Pc → ℕ → Pc → Type 0 where
  call : {lock : ℕ} → Move lock outside lock (exchanging 1)
  win : {lock wait : ℕ} → lock ≡ 0 → Move lock (exchanging wait) 1 (checking wait)
  lose : {lock wait : ℕ} → lock ≢ 0 → Move lock (exchanging wait) 1 (pausing wait)
  pass : {lock wait : ℕ} → lock ≢ 0 → Move lock (checking wait) lock owner
  fail : {lock wait : ℕ} → lock ≡ 0 → Move lock (checking wait) lock (pausing wait)
  retry : {lock wait : ℕ} → Move lock (pausing wait) lock (exchanging (backoff wait))
  unlock : {lock : ℕ} → Move lock owner 0 outside

pub record System : Type 0 where
  pub lock : ℕ
  pub pc : ℕ → Pc

abbrev pub update : (ℕ → Pc) → ℕ → Pc → ℕ → Pc
update f i p j = if i == j then p else f j

pub data Step (s : System) : System → Type 0 where
  pick :
      (i : ℕ) {lock : ℕ} {p : Pc}
      → Move s.lock (s.pc i) lock p
      → Step s (record { lock = lock; pc = update s.pc i p })

-- The constructor unlocks the word; no thread has called `Lock` yet.
abbrev pub initial : System
initial = record { lock = 0; pc = λ _. outside }

pub data Reach : System → Type 0 where
  start : Reach initial
  later : {s t : System} → Reach s → Step s t → Reach t
