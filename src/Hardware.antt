-- ===== src/Hardware.antt =====
-- backend/internal/hardware/hardware.go: the parts of a hardware snapshot that the scheduler reads.
-- Names, versions, bandwidths, utilisation and the collection time are left out.
use llama_rack.Base.{List, []}
use llama_rack.Base.Int64.{Int64}
use llama_rack.Base.Text.{Text}

pub record Gpu : Type 0 where
  pub id : Text
  pub total_bytes : Int64
  pub used_bytes : Int64
  pub free_bytes : Int64

pub record GpuProcess : Type 0 where
  pub pid : Int64
  pub device_id : Text
  pub used_bytes : Int64

pub record Snapshot : Type 0 where
  pub ram_total_bytes : Int64
  pub ram_available_bytes : Int64
  pub gpus : List Gpu
  pub processes : List GpuProcess

-- The zero value of the structure.
abbrev pub no_gpu : Gpu
no_gpu = record { id = []; total_bytes = 0; used_bytes = 0; free_bytes = 0 }
