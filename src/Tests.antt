-- ===== src/Tests.antt =====
-- Sample hosts, requests and ledgers, and runs of the model on them. The floating-point numbers of
-- the samples are fractions that are zero or greater.
mod Demand
mod Ledger
mod Eviction
mod Runtime
mod Placement
mod Pending
mod Gguf
mod Login
mod Network
mod Outbound
mod Gateway
mod Failures
use llama_rack.Base.{
  ℕ, ◌+◌, ◌*◌, ◌/◌, ◌%◌, ◌-◌, ◌^◌, Bool, false, Option, none, some, [], ◌∷◌, ltb, leb, ◌==◌,
  if◌then◌else◌, arith,
}
use llama_rack.Base.Int64.{Int64}
use llama_rack.Base.Text.{Text, codes, parse_int}
use llama_rack.Base.Float.{Float64}
use llama_rack.Hardware.{Gpu, Snapshot}
use llama_rack.Scheduler.Options.{Options}
use llama_rack.Scheduler.Demand.{KvMetadata, DemandInput}
use llama_rack.Scheduler.Placement.{PlacementRequest}

-- A numerator and a denominator.
abbrev pub Fraction : Type 0
Fraction = ℕ × ℕ

abbrev pub fraction_lt : Fraction → Fraction → Bool
fraction_lt x y = ltb (x.0 * y.1) (y.0 * x.1)

abbrev pub fraction_le : Fraction → Fraction → Bool
fraction_le x y = leb (x.0 * y.1) (y.0 * x.1)

abbrev pub parse_fraction : Text → Option Fraction
parse_fraction s = elim (parse_int s) [ none ↦ none | some n ↦ some (n, 1) ]

abbrev pub fractions : Float64
fractions = record {
  F = Fraction;
  constant = λ n d. (n, d);
  of_int = λ n. (n, 1);
  to_int = λ x. x.0 / x.1 % 2 ^ 64;
  add = λ x y. (x.0 * y.1 + y.0 * x.1, x.1 * y.1);
  mul = λ x y. (x.0 * y.0, x.1 * y.1);
  div = λ x y. (x.0 * y.1, x.1 * y.0);
  min = λ x y. if fraction_lt x y then x else y;
  ceil = λ x. ((x.0 + x.1 - 1) / x.1, 1);
  floor = λ x. (x.0 / x.1, 1);
  round = λ x. ((2 * x.0 + x.1) / (2 * x.1), 1);
  lt = fraction_lt;
  le = fraction_le;
  is_nan = λ x. x.1 == 0;
  is_inf = λ x. false;
  parse_float = parse_fraction;
  to_int_lt = λ x. omega arith;
}

abbrev pub gib : Int64
gib = 1024 * 1024 * 1024

abbrev pub large_gpu : Gpu
large_gpu = record {
  id = codes "gpu0";
  total_bytes = 24 * gib;
  used_bytes = 2 * gib;
  free_bytes = 22 * gib;
}

abbrev pub small_gpu : Gpu
small_gpu = record {
  id = codes "gpu1";
  total_bytes = 12 * gib;
  used_bytes = 4 * gib;
  free_bytes = 8 * gib;
}

abbrev pub two_gpus : Snapshot
two_gpus = record {
  ram_total_bytes = 64 * gib;
  ram_available_bytes = 48 * gib;
  gpus = large_gpu ∷ small_gpu ∷ [];
  processes = [];
}

abbrev pub metadata : KvMetadata
metadata = record {
  architecture = codes "qwen3moe";
  context_length = 32768;
  block_count = 4;
  embedding = 2048;
  head_count = 32;
  kv_head_count = 4;
  key_length = 128;
  value_length = 128;
  expert_count = 128;
}

abbrev pub demand_input : Options → DemandInput
demand_input options = record {
  weights_bytes = 40 * gib;
  companion_bytes = gib;
  context = 8192;
  metadata = metadata;
  metadata_err = none;
  options = options;
}

abbrev pub automatic : PlacementRequest
automatic = record {
  required_bytes = 25 * gib;
  host_ram_bytes = 0;
  mode = codes " Auto";
  devices = [];
  tensor_split = [];
  reserve_bytes = 0;
  splittable_bytes = 24 * gib;
  fixed_bytes = gib;
}
