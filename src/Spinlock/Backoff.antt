-- ===== src/Spinlock/Backoff.antt =====
-- The pauses of Spinlock.cpp: how long a thread waits before its next attempt.
use native.Mathlib.Nat.{pow-suc, pow-le-pow_right}
use nova_hypervisor.Base.{ℕ, zero, suc, ◌+◌, ◌-◌, ◌*◌, ◌^◌, ◌≤◌, ◌≡◌, refl, ap, ◌∙◌, arith}
use nova_hypervisor.Spinlock.{backoff, max_wait}

-- The wait after `n` failed attempts.
unfoldable pub wait_after : ℕ → ℕ
wait_after zero = 1
wait_after (suc n) = backoff (wait_after n)

pub backoff_le : (w : ℕ) → backoff w ≤ max_wait
unfolding backoff
backoff_le w = ground arith

pub backoff_small : (w : ℕ) → w ≤ 32768 → backoff w ≡ w * 2
unfolding backoff
backoff_small w h = ground arith

pub backoff_large : (w : ℕ) → 32768 ≤ w → w ≤ max_wait → backoff w ≡ max_wait
unfolding backoff
backoff_large w l h = ground arith

wait_after_power : (n : ℕ) → n ≤ 16 → wait_after n ≡ 2 ^ n
unfolding wait_after
wait_after_power zero h = refl
wait_after_power (suc n) h =
    let small : 2 ^ n ≤ 2 ^ 15 = pow-le-pow_right (omega arith) {j = 15} (omega arith) in
    ap backoff (wait_after_power n (omega arith))
    ∙ omega (arith, backoff_small (2 ^ n) small, pow-suc 2 n)

wait_after_plateau : (n : ℕ) → wait_after (n + 16) ≡ max_wait
unfolding wait_after
wait_after_plateau zero = wait_after_power 16 (omega arith)
wait_after_plateau (suc n) =
    ground (arith, wait_after_plateau n, backoff_large (wait_after (n + 16)))

-- The wait doubles with each of the first 16 failed attempts and is `MAX_WAIT` from then on.
pub wait_after_lem : (n : ℕ) → (n ≤ 16 → wait_after n ≡ 2 ^ n) × (16 ≤ n → wait_after n ≡ max_wait)
wait_after_lem n = (wait_after_power n, λ h. ground (arith, wait_after_plateau (n - 16)))
