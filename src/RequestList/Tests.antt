-- ===== src/RequestList/Tests.antt =====
-- Runs of the request table at concrete inputs.
use mathlib.Core.List.{Perm}
use nova_hypervisor.Base.{ℕ, ◌<◌, ◌≡◌, refl, true, false, some, none, List, [], ◌∷◌, length}
use nova_hypervisor.RequestList.{
  RequestList, create, insert, insert_slot, pop, pop_slot, max_allocation_requests,
}
use nova_hypervisor.RequestList.Laws.{IsValid, bag, create-IsValid, insert_lem, pop_lem}

abbrev fresh : RequestList ℕ
fresh = create 0

insert_lem_example :
    IsValid (insert 7 fresh).0
    × (length (bag fresh) < max_allocation_requests
        → ((insert 7 fresh).1 ≡ true) × Perm (bag (insert 7 fresh).0) (7 ∷ bag fresh))
    × (length (bag fresh) ≡ max_allocation_requests → insert 7 fresh ≡ (fresh, false))
insert_lem_example = insert_lem 7 fresh (create-IsValid 0)

pop_lem_example :
    IsValid (pop fresh).0
    × ((item : ℕ) (rest : List ℕ)
        → bag fresh ≡ item ∷ rest
        → ((pop fresh).1 ≡ some item) × (bag (pop fresh).0 ≡ rest))
    × (bag fresh ≡ [] → pop fresh ≡ (fresh, none))
pop_lem_example = pop_lem fresh (create-IsValid 0)

round : (pop (insert 7 fresh).0).1 ≡ some 7
unfolding create insert insert_slot pop pop_slot
round = refl
