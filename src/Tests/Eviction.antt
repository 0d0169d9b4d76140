-- ===== src/Tests/Eviction.antt =====
-- Three loaded instances, of which one is busy.
use llama_rack.Scheduler.Capacity.{adjust_gpu, adjust_snapshot}
use llama_rack.Base.Maps.{lookup, put}
use mathlib.Core.List.{Perm}
use llama_rack.Base.{◌≡◌, refl, ◌*◌, true, false, List, [], ◌∷◌, All, keep}
use llama_rack.Base.Text.{codes, Text, one_of, text_eq, to_lower, trim_space}
use llama_rack.Base.Int64.{Int64}
use llama_rack.Scheduler.Errors.{ok}
use llama_rack.Scheduler.Placement.{
  Placement, PlacementRequest, plan_placement, manual_devices, manual_on,
}
use llama_rack.Scheduler.Placement.Gpus.{by_id_from, usable_vram}
use llama_rack.Scheduler.Eviction.{
  Candidate, rank_eviction_candidates, is_evictable, host_ram_fits, snapshot_with_candidate_credits,
  candidate_before, candidate_gpu_bytes, credit_bytes_from, credit_resources, insert_candidate,
  is_counted, plan_from_selection, priority_rank, sort_candidates,
}
use llama_rack.Scheduler.Eviction.Cover.{
  cover_placement, cover_from, makes_progress, plan_of_cover, releases_nothing,
}
use llama_rack.Scheduler.Eviction.Rank.{IsRanked, may_stop, rank_eviction_candidates-IsRanked}
use llama_rack.Scheduler.Eviction.Sound.{IsEvictable, host_without, cover_placement-frees_enough}
use llama_rack.Tests.{fractions, two_gpus, automatic, gib}

abbrev pub loaded : Text → Text → Int64 → Int64 → Candidate
loaded id priority active bytes = record {
  model_id = codes "m";
  instance_id = id;
  priority = priority;
  always_on = false;
  eviction_enabled = true;
  active_requests = active;
  last_used = 3;
  estimated_bytes = bytes;
  resources = record {
    host_ram_bytes = 0;
    gpu = record { device_id = codes "gpu0"; bytes = bytes } ∷ [];
  };
  ready = true;
}

abbrev pub candidates : List Candidate
candidates =
    loaded (codes "busy") (codes "low") 1 (2 * gib)
    ∷ loaded (codes "high") (codes "high") 0 (2 * gib)
    ∷ loaded (codes "low") (codes "low") 0 (2 * gib)
    ∷ []

abbrev pinned : PlacementRequest
pinned = record automatic {
  required_bytes = 23 * gib;
  devices = codes "gpu0" ∷ [];
  mode = codes "manual";
}

cover_placement-frees_enough_example :
    let plan = cover_placement fractions candidates two_gpus pinned in
    All IsEvictable plan.evict
    × (p : Placement) × (plan_placement fractions (host_without two_gpus plan.evict) pinned ≡ ok p)
    × (p.fits ≡ true)
    × (host_ram_fits (host_without two_gpus plan.evict) 0 ≡ true)
    × (plan.devices ≡ p.devices)
unfolding text_eq trim_space to_lower one_of lookup put keep usable_vram by_id_from manual_devices
    manual_on plan_placement adjust_gpu adjust_snapshot priority_rank is_evictable candidate_before
    insert_candidate sort_candidates rank_eviction_candidates is_counted candidate_gpu_bytes
    credit_resources credit_bytes_from snapshot_with_candidate_credits plan_from_selection
    host_ram_fits releases_nothing makes_progress plan_of_cover cover_from cover_placement
cover_placement-frees_enough_example =
    cover_placement-frees_enough fractions two_gpus pinned candidates refl

rank_eviction_candidates-IsRanked_example :
    Perm (rank_eviction_candidates candidates) (keep may_stop candidates)
    × IsRanked (rank_eviction_candidates candidates)
rank_eviction_candidates-IsRanked_example = rank_eviction_candidates-IsRanked candidates
