-- ===== src/Tests/Ledger.antt =====
-- Two workers take memory: an instance, whose worker starts, and a benchmark, which never does.
use llama_rack.Scheduler.Capacity.{
  adjust_gpu, adjust_snapshot, adjusted_ram, occupy, ram_from_total, reservations_for,
}
use llama_rack.Scheduler.Placement.{auto_placement, first_adequate, plan_placement}
use llama_rack.Scheduler.Placement.Gpus.{gpu_before, insert_gpu, sorted_gpus_by_usable, usable_vram}
use llama_rack.Base.{ℕ, ◌≡◌, refl, ◌+◌, ◌*◌, some, [], ◌∷◌, true}
use llama_rack.Base.Text.{codes, one_of, text_eq, to_lower, trim_space}
use llama_rack.Base.Maps.{lookup, put}
use llama_rack.Scheduler.Errors.{ok, err, lease_not_pending}
use llama_rack.Scheduler.Ledger.{
  AcquireRequest, ResourceLease, ResourceOwner, Ledger, pending, committed, new_ledger_with_ttl,
  release_owner_locked, sweep_expired, is_expired, is_ignored, is_pending, new_ledger,
  normalize_owner, occupancy, occupy_gpus, resource_owner_key, usable_credits_from,
}
use llama_rack.Scheduler.Ledger.Operations.{
  acquire, commit, acquire_for, acquire_planned, allowed_credits, host_allows, instance_of,
  new_lease, record_lease, schedulable,
}
use llama_rack.Scheduler.Ledger.Invariant.{Inv}
use llama_rack.Scheduler.Ledger.Sweep.{unexpired, lookup-sweep_expired}
use llama_rack.Scheduler.Ledger.History.{Reach, start, next, acquires, Reach-Inv, Reach-one_lease}
use llama_rack.Scheduler.Ledger.Outcome.{Outcome, acquire-Outcome, commit_once}
use llama_rack.Tests.{fractions, two_gpus, automatic, gib}

abbrev request_for : ResourceOwner → AcquireRequest
request_for owner = record {
  owner = owner;
  instance_id = [];
  snapshot = two_gpus;
  placement = record automatic { required_bytes = 6 * gib };
  credits = [];
  host_ram = gib;
}

abbrev instance_a : ResourceOwner
instance_a = record { kind = codes "instance"; id = codes "a" }

abbrev benchmark_b : ResourceOwner
benchmark_b = record { kind = codes "benchmark"; id = codes "b" }

abbrev lease_a : ResourceLease
lease_a = record {
  id = codes "l1";
  owner = instance_a;
  instance_id = codes "a";
  placement = record {
    devices = codes "gpu0" ∷ [];
    tensor_split = [];
    required_bytes = 6 * gib;
    available_bytes = 21 * gib + 512 * 1024 * 1024;
    device_demand = [];
    fits = true;
  };
  gpus = record { device_id = codes "gpu0"; bytes = 6 * gib } ∷ [];
  host_ram = gib;
  state = pending;
  expires_at = 110;
}

abbrev first : Ledger
first = (acquire fractions 10 (codes "l1") 10 (request_for instance_a) (new_ledger_with_ttl 100)).0

abbrev second : Ledger
second = (acquire fractions 20 (codes "l2") 20 (request_for benchmark_b) first).0

acquire-Outcome_example :
    Outcome
      (codes "l1")
      10
      (release_owner_locked instance_a (sweep_expired 10 (new_ledger_with_ttl 100)))
      first
      lease_a
unfolding text_eq trim_space to_lower lookup usable_vram gpu_before insert_gpu sorted_gpus_by_usable
    first_adequate auto_placement plan_placement ram_from_total adjusted_ram adjust_gpu
    adjust_snapshot reservations_for new_ledger normalize_owner release_owner_locked sweep_expired
    usable_credits_from occupancy schedulable instance_of host_allows new_lease acquire_planned
    allowed_credits acquire_for acquire
acquire-Outcome_example =
    acquire-Outcome fractions 10 (codes "l1") 10 (request_for instance_a) (new_ledger_with_ttl 100)
      lease_a refl

run : Reach fractions second
unfolding text_eq trim_space to_lower lookup put usable_vram gpu_before insert_gpu
    sorted_gpus_by_usable first_adequate auto_placement plan_placement ram_from_total adjusted_ram
    adjust_gpu adjust_snapshot new_ledger normalize_owner release_owner_locked sweep_expired
    usable_credits_from occupancy schedulable record_lease host_allows new_lease acquire_planned
    allowed_credits acquire_for acquire
run =
    next (next (start 100) (acquires 10 (codes "l1") 10 (request_for instance_a) (refl, refl)))
      (acquires 20 (codes "l2") 20 (request_for benchmark_b) (refl, refl))

Reach-Inv_example : Inv second
Reach-Inv_example = Reach-Inv fractions run

Reach-one_lease_example : (codes "l1" ≡ codes "l1") × (lease_a ≡ lease_a)
unfolding text_eq trim_space to_lower one_of lookup put usable_vram gpu_before insert_gpu
    sorted_gpus_by_usable first_adequate auto_placement plan_placement occupy ram_from_total
    adjusted_ram adjust_gpu adjust_snapshot reservations_for is_pending new_ledger
    resource_owner_key normalize_owner release_owner_locked is_expired sweep_expired
    usable_credits_from occupy_gpus is_ignored occupancy schedulable record_lease instance_of
    host_allows new_lease acquire_planned allowed_credits acquire_for acquire
Reach-one_lease_example =
    Reach-one_lease fractions (codes "l1") (codes "l1") lease_a lease_a run refl refl refl

lookup-sweep_expired_example :
    lookup (codes "l2") (sweep_expired 150 second).leases
    ≡ unexpired 150 (lookup (codes "l2") second.leases)
lookup-sweep_expired_example =
    lookup-sweep_expired 150 second (codes "l2") (Reach-Inv fractions run)

commit_once_example :
    let after = (commit (codes "l1") second).0 in
    ((commit (codes "l1") second).1 ≡ ok tt)
    × ((now : ℕ)
        → lookup (codes "l1") (sweep_expired now after).leases
          ≡ some (record lease_a { state = committed; expires_at = 0 }))
    × (commit (codes "l1") after ≡ (after, err lease_not_pending))
unfolding text_eq trim_space to_lower one_of lookup put usable_vram gpu_before insert_gpu
    sorted_gpus_by_usable first_adequate auto_placement plan_placement occupy ram_from_total
    adjusted_ram adjust_gpu adjust_snapshot reservations_for is_pending new_ledger
    resource_owner_key normalize_owner release_owner_locked is_expired sweep_expired
    usable_credits_from occupy_gpus is_ignored occupancy schedulable record_lease instance_of
    host_allows new_lease acquire_planned allowed_credits acquire_for acquire
commit_once_example = commit_once (codes "l1") second lease_a (Reach-Inv fractions run) refl refl
