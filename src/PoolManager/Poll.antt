-- ===== src/PoolManager/Poll.antt =====
-- The polling loops of PoolManager.cpp (`Allocate` has two and `Free` one): pause, attempt, double
-- the wait, and count the attempts that were made at the longest wait.
use nova_hypervisor.Base.{
  ℕ, zero, suc, ◌+◌, ◌-◌, ◌^◌, ◌≤◌, ◌≡◌, inl, inr, Bool, true, false, not, ◌&&◌, Option, none, some,
  ltb, ◌==◌, if◌then◌else◌, arith, Bool-cases,
}
use native.Mathlib.Decide.{dec_lt}
use native.Mathlib.Nat.{pow-le-pow_right}
use nova_hypervisor.Spinlock.{backoff, max_wait}
use nova_hypervisor.Spinlock.Backoff.{wait_after, wait_after_lem}

abbrev pub max_wait_iterations : ℕ
max_wait_iterations = 10

-- Enough for every poll: 15 attempts with a shorter wait, then 10 with the longest.
abbrev pub poll_fuel : ℕ
poll_fuel = 25

-- What a poll ends with: the state, the last answer, and `waitCount`.
pub record Polled {ℓ κ} (S : Type ℓ) (R : Type κ) : Type (ℓ ⊔ κ) where
  pub state : S
  pub answer : R
  pub wait_count : ℕ

-- The count of long waits after one more attempt.
count_step :
    (n : ℕ) → (if backoff (wait_after n) == max_wait then n - 15 + 1 else n - 15) ≡ suc n - 15
unfolding wait_after
count_step n = elim (dec_lt n 15) [
  | yes h ↦
      let small : 2 ^ suc n ≤ 2 ^ 15 = pow-le-pow_right (omega arith) {j = 15} (omega arith) in
      ground (arith, (wait_after_lem (suc n)).0)
  | no h ↦ ground (arith, (wait_after_lem (suc n)).1)
]

module _ {ℓ κ} {S : Type ℓ} {R : Type κ} (attempt : S → S × R) (success : R → Bool)
    (others : ℕ → S → S) where
  -- `others n` is what the other threads do during the `n`-th pause. `none`: out of fuel.
  unfoldable pub poll : ℕ → ℕ → ℕ → ℕ → S → Option (Polled S R)
  poll zero round wait wait_count s = none
  poll (suc fuel) round wait wait_count s =
      let (s', answer) = attempt (others round s) in
      let wait' = backoff wait in
      let count' = if wait' == max_wait then wait_count + 1 else wait_count in
      let rest = poll fuel (round + 1) wait' count' s' in
      if not (success answer) && ltb count' max_wait_iterations
      then rest
      else some (record { state = s'; answer = answer; wait_count = count' })

  -- A finished poll, whose last attempt was made in the state `before`.
  pub record Finished {μ} (P : S → Type μ) (r : Option (Polled S R)) : Type (ℓ ⊔ κ ⊔ μ) where
    pub before : S
    pub held : P before
    pub count : ℕ
    pub bounded : count ≤ max_wait_iterations
    pub result :
        r
        ≡ some
            (record { state = (attempt before).0; answer = (attempt before).1; wait_count = count })
    pub exhausted : success (attempt before).1 ≡ false → count ≡ max_wait_iterations

  abbrev again : ℕ → ℕ → S → Bool
  again n round s =
      not (success (attempt (others round s)).1) && ltb (suc n - 15) max_wait_iterations

  poll_stop :
      (fuel n round : ℕ) (s : S)
      → again n round s ≡ false
      → poll (suc fuel) round (wait_after n) (n - 15) s
        ≡ some (record {
          state = (attempt (others round s)).0;
          answer = (attempt (others round s)).1;
          wait_count = suc n - 15;
        })
  unfolding poll
  poll_stop fuel n round s h = rw (count_step n, h)

  poll-again :
      (fuel n round : ℕ) (s : S)
      → again n round s ≡ true
      → poll (suc fuel) round (wait_after n) (n - 15) s
        ≡ poll fuel (round + 1) (wait_after (suc n)) (suc n - 15) (attempt (others round s)).0
  unfolding poll wait_after
  poll-again fuel n round s h = rw (count_step n, h)

  module _ {μ} (P : S → Type μ) (keep : (s : S) → P s → P (attempt s).0)
      (others_keep : (n : ℕ) (s : S) → P s → P (others n s)) where
    finish :
        (fuel n round : ℕ) (s : S)
        → n + suc fuel ≡ poll_fuel
        → P s
        → again n round s ≡ false
        → Finished P (poll (suc fuel) round (wait_after n) (n - 15) s)
    finish fuel n round s e p stop = record {
      before = others round s;
      held = others_keep round s p;
      count = suc n - 15;
      bounded = omega arith;
      result = poll_stop fuel n round s stop;
      exhausted = λ h. ground arith;
    }

    -- After `n` attempts the wait is `wait_after n` and `waitCount` is `n - 15`.
    poll_from :
        (fuel n round : ℕ) (s : S)
        → n + suc fuel ≡ poll_fuel
        → P s
        → Finished P (poll (suc fuel) round (wait_after n) (n - 15) s)
    poll_from zero n round s e p = last (omega arith)
      where
        over : n ≡ 24 → again n round s ≡ false
        over e' = ground arith

        last : n ≡ 24 → Finished P (poll 1 round (wait_after n) (n - 15) s)
        last e' = finish zero n round s e p (over e')
    poll_from (suc fuel) n round s e p = elim (Bool-cases (again n round s)) [
      | inr stop ↦ finish (suc fuel) n round s e p stop
      | inl more ↦
          rw (poll-again (suc fuel) n round s more)
            (poll_from fuel (suc n) (round + 1) _ (omega arith) (keep _ (others_keep round s p)))
    ]

    pub poll-Finished : (round : ℕ) (s : S) → P s → Finished P (poll poll_fuel round 1 0 s)
    unfolding wait_after
    poll-Finished round s p = poll_from 24 0 round s (omega arith) p
