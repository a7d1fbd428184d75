-- ===== src/Spinlock/Tests.antt =====
-- Runs of the lock at concrete inputs.
use nova_hypervisor.Base.{ℕ, ◌≡◌, refl, arith}
use nova_hypervisor.Spinlock.{
  owner, System, pick, Reach, start, later, call, win, pass, lose, update, checking, pausing,
  exchanging, outside, backoff, Pc,
}
use nova_hypervisor.Spinlock.Backoff.{wait_after}
use nova_hypervisor.Spinlock.Exclusion.{mutual_exclusion}

abbrev alternating : ℕ → Pc
alternating =
    update
      (update (update (update (update (λ _. outside) 0 (exchanging 1)) 0 (checking 1)) 0 owner) 1
        (exchanging 1))
      1 (pausing 1)

-- Thread 0 takes the lock, then thread 1 tries and loses.
abbrev contended : System
contended = record { lock = 1; pc = alternating }

contended-Reach : Reach contended
contended-Reach =
    later
      (later
        (later (later (later start (pick 0 call)) (pick 0 (win refl)))
          (pick 0 (pass (λ e. omega arith))))
        (pick 1 call))
      (pick 1 (lose (λ e. omega arith)))

mutual_exclusion_example : (◌≡◌ {A = ℕ} 0 0) × (contended.lock ≡ 1)
mutual_exclusion_example = mutual_exclusion contended-Reach 0 0 refl refl

capped : wait_after 40 ≡ 65536
unfolding wait_after backoff
capped = refl
