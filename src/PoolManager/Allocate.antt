-- ===== src/PoolManager/Allocate.antt =====
-- `Allocate` and `Free` of PoolManager.cpp. `others n` is what the other threads do to the pool
-- before the `n`-th access after the first. `none` means that the fuel of a poll ran out.
use nova_hypervisor.Base.{
  ℕ, ◌≡◌, ◌≢◌, refl, inl, inr, true, false, not, ◌||◌, Option, none, some, Bool-cases, ◌==◌, ◌!=◌,
  if◌then◌else◌,
}
use nova_hypervisor.RequestList.Laws.{insert_case}
use nova_hypervisor.PoolManager.{
  Pool, PoolAllocation, AllocationType, is_valid_allocation_type, find_free_slot,
  request_allocation, request_free,
}
use nova_hypervisor.PoolManager.Poll.{poll, poll_fuel, max_wait_iterations, poll-Finished}
use nova_hypervisor.PoolManager.Invariant.{
  WellFormed, handed_out, FindCase, found, missing, find_case,
}
use nova_hypervisor.PoolManager.Threads.{find-WellFormed, ask-WellFormed, return-WellFormed}

module _ (others : ℕ → Pool → Pool) where
  -- The last loop of `Allocate`: wait for the request to be processed.
  pub await_slot : AllocationType → Pool → Option (Pool × ℕ)
  await_slot type p = elim (poll (find_free_slot type) (λ a. a != 0) others poll_fuel 26 1 0 p) [
    | none ↦ none
    | some r ↦ some (r.state, r.answer)
  ]

  -- The first loop: retry the request until it is queued, or give up.
  pub requeue : AllocationType → Pool → Option (Pool × ℕ)
  requeue type p = elim (poll (request_allocation type) (λ b. b) others poll_fuel 1 1 0 p) [
    | none ↦ none
    | some r ↦
        if r.wait_count == max_wait_iterations then some (r.state, 0) else await_slot type r.state
  ]

  pub allocate : AllocationType → Pool → Option (Pool × ℕ)
  allocate type p =
      if not (is_valid_allocation_type type)
      then some (p, 0)
      else let (p', allocation) = find_free_slot type p in
        if allocation != 0
        then some (p', allocation)
        else let (p'', queued) = request_allocation type (others 0 p') in
          if queued then await_slot type p'' else requeue type p''

  pub free : ℕ → AllocationType → Pool → Option Pool
  free address type p =
      if address == 0 || not (is_valid_allocation_type type)
      then some p
      else let allocation : PoolAllocation = record {
        address = address;
        is_used = false;
        type = type;
      } in
        let (p', queued) = request_free allocation p in
        if queued
        then some p'
        else elim (poll (request_free allocation) (λ b. b) others poll_fuel 0 1 0 p') [
          | none ↦ none
          | some r ↦ some r.state
        ]

-- An answer of `Allocate`: the pool is well formed, and an address that is not null is that of a
-- buffer which nobody held just before, and which is handed out now.
pub record Answered (type : AllocationType) (result : Option (Pool × ℕ)) : Type 0 where
  pub pool : Pool
  pub address : ℕ
  pub returns : result ≡ some (pool, address)
  pub well_formed : WellFormed pool
  pub exclusive :
      address ≢ 0
      → (before : Pool) × WellFormed before
        × (find_free_slot type before ≡ (pool, address))
        × (handed_out address before ≡ false)
        × (handed_out address pool ≡ true)

find-Answered :
    (type : AllocationType) (p : Pool)
    → WellFormed p
    → {r : Pool × ℕ} → FindCase type p r
    → find_free_slot type p ≡ r
    → Answered type (some r)
find-Answered type p wf (found q a n unused owned t) e = record {
  pool = q;
  address = a;
  returns = refl;
  well_formed = t.well_formed;
  exclusive = λ ne. (p, wf, e, unused, t.now);
}
find-Answered type p wf (missing all) e = record {
  pool = p;
  address = 0;
  returns = refl;
  well_formed = wf;
  exclusive = λ ne. absurd (ne refl);
}

null-Answered : (type : AllocationType) (p : Pool) → WellFormed p → Answered type (some (p, 0))
null-Answered type p wf = record {
  pool = p;
  address = 0;
  returns = refl;
  well_formed = wf;
  exclusive = λ ne. absurd (ne refl);
}

find_keep : (type : AllocationType) (p : Pool) → WellFormed p → WellFormed (find_free_slot type p).0
find_keep type p wf = find-WellFormed p wf (find_case type p wf)

request_keep :
    (type : AllocationType) (p : Pool) → WellFormed p → WellFormed (request_allocation type p).0
unfolding request_allocation
request_keep type p wf = ask-WellFormed p wf (insert_case type _ wf.allocation_valid)

free_keep : (x : PoolAllocation) (p : Pool) → WellFormed p → WellFormed (request_free x p).0
unfolding request_free
free_keep x p wf = return-WellFormed p wf (insert_case x _ wf.free_valid)

module _ (others : ℕ → Pool → Pool)
    (others_keep : (n : ℕ) (p : Pool) → WellFormed p → WellFormed (others n p)) where
  await_slot-Answered :
      (type : AllocationType) (p : Pool) → WellFormed p → Answered type (await_slot others type p)
  unfolding await_slot
  await_slot-Answered type p wf =
      let f =
        poll-Finished (find_free_slot type) (λ a. a != 0) others WellFormed (find_keep type)
          others_keep 26 p wf in
      rw (f.result, await_slot)
        (find-Answered type f.before f.held (find_case type f.before f.held) refl)

  requeue-Answered :
      (type : AllocationType) (p : Pool) → WellFormed p → Answered type (requeue others type p)
  unfolding requeue
  requeue-Answered type p wf =
      let f =
        poll-Finished (request_allocation type) (λ b. b) others WellFormed (request_keep type)
          others_keep 1 p wf in
      let wf' = request_keep type f.before f.held in
      rw (f.result, requeue)
        (elim (Bool-cases (f.count == max_wait_iterations)) [
          | inl late ↦ rw late (null-Answered type _ wf')
          | inr early ↦ rw early (await_slot-Answered type _ wf')
        ])

  -- `Allocate` returns, if the other threads keep the pool well formed. It leaves the pool well formed
  -- and returns null or the address of a buffer that was free just before and is handed out now.
  pub allocate-Answered :
      (type : AllocationType) (p : Pool) → WellFormed p → Answered type (allocate others type p)
  unfolding allocate
  allocate-Answered type p wf = elim (Bool-cases (not (is_valid_allocation_type type))) [
    | inl invalid ↦ rw (invalid, allocate) (null-Answered type p wf)
    | inr valid ↦
        rw (valid, allocate)
          (elim (Bool-cases ((find_free_slot type p).1 != 0)) [
            | inl got ↦ rw got (find-Answered type p wf (find_case type p wf) refl)
            | inr none_free ↦
                let first = request_keep type _ (others_keep 0 _ (find_keep type p wf)) in
                rw none_free
                  (elim (Bool-cases
                    (request_allocation type (others 0 (find_free_slot type p).0)).1) [
                      | inl queued ↦ rw queued (await_slot-Answered type _ first)
                      | inr full ↦ rw full (requeue-Answered type _ first)
                    ])
          ])
  ]

  -- `Free` returns and leaves the pool well formed, if the other threads keep it so.
  pub free-WellFormed :
      (address : ℕ) (type : AllocationType) (p : Pool)
      → WellFormed p
      → (q : Pool) × (free others address type p ≡ some q) × WellFormed q
  unfolding free
  free-WellFormed address type p wf =
      elim (Bool-cases (address == 0 || not (is_valid_allocation_type type))) [
        | inl bad ↦ rw (bad, free) (p, refl, wf)
        | inr good ↦
            let x : PoolAllocation = record { address = address; is_used = false; type = type } in
            let wf' = free_keep x p wf in
            rw (good, free)
              (elim (Bool-cases (request_free x p).1) [
                | inl queued ↦ rw queued ((request_free x p).0, refl, wf')
                | inr full ↦
                    let f =
                      poll-Finished (request_free x) (λ b. b) others WellFormed (free_keep x)
                        others_keep 0 _ wf' in
                    rw (full, f.result) ((request_free x f.before).0, refl, free_keep x _ f.held)
              ])
      ]
