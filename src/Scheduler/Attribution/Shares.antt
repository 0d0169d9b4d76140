-- ===== src/Scheduler/Attribution/Shares.antt =====
-- backend/internal/scheduler/eviction.go: an estimate that is split loses no byte.
use llama_rack.Base.{
  suc, ◌≡◌, ◌≢◌, refl, ap, false, List, [], ◌∷◌, map, arith, length, ◌∙◌, ◌==◌, is_nil,
  if◌then◌else◌,
}
use llama_rack.Base.Int64.{Int64, IsInt64, IsNonneg, add64, sub64, le64}
use llama_rack.Base.Text.{Text}
use llama_rack.Base.Float.{Float64}
use llama_rack.Scheduler.Placement.{head_weight, tail_weights}
use llama_rack.Scheduler.Eviction.{GpuResource}
use llama_rack.Scheduler.Attribution.{
  clean_device_ids, estimate_share, split_over, split_estimate_across_devices,
}

abbrev pub resource_ids : List GpuResource → List Text
resource_ids = map (λ g. g.device_id)

-- The sum of the bytes, as an `int64`.
unfoldable pub summed_bytes : Int64 → List GpuResource → Int64
summed_bytes total [] = total
summed_bytes total (g ∷ gpus) = summed_bytes (add64 total g.bytes) gpus

module _ (fl : Float64) where
  open fl use {F, constant, of_int, to_int, to_int_lt, mul, div, le}

  split_over-ids :
      (total : Int64) (sum : F) (remaining : Int64) (ids : List Text) (weights : List F)
      → resource_ids (split_over fl total sum remaining ids weights) ≡ ids
  unfolding split_over
  split_over-ids total sum remaining [] weights = refl
  split_over-ids total sum remaining (id ∷ ids) weights = ap (◌∷◌ id) (
      split_over-ids total sum
        (sub64 remaining
          (if is_nil ids then remaining else estimate_share fl total sum (head_weight fl weights)))
        ids (tail_weights fl weights))

  split_over-sum :
      (done total : Int64) (sum : F) (remaining : Int64) (id : Text) (ids : List Text)
      (weights : List F)
      → IsInt64 remaining
      → IsInt64 done
      → summed_bytes done (split_over fl total sum remaining (id ∷ ids) weights)
        ≡ add64 done remaining
  unfolding split_over summed_bytes estimate_share
  split_over-sum done total sum remaining id [] weights h k = refl
  split_over-sum done total sum remaining id (next ∷ ids) weights h k =
      let x = div (mul (of_int total) (head_weight fl weights)) sum in
      let share = to_int x in
      split_over-sum (add64 done share) total sum (sub64 remaining share) next ids
        (tail_weights fl weights) (omega arith) (omega arith)
      ∙ omega (arith, to_int_lt x)

  split_several :
      (total : Int64) (sum : F) (id : Text) (ids : List Text) (weights : List F)
      → IsNonneg total
      → (resource_ids (split_over fl total sum total (id ∷ ids) weights) ≡ id ∷ ids)
        × (summed_bytes 0 (split_over fl total sum total (id ∷ ids) weights) ≡ total)
  split_several total sum id ids weights h = (
    split_over-ids total sum total (id ∷ ids) weights,
    split_over-sum 0 total sum total id ids weights (omega arith) (omega arith) ∙ omega arith,
  )

  positive : (total : Int64) → IsNonneg total → total ≢ 0 → le64 total 0 ≡ false
  positive total h n = ground arith

  -- A positive estimate is split over the devices, trimmed and each once, in their order, and the
  -- parts add up to the estimate, whatever the weights and however the shares are rounded.
  pub split_estimate_total :
      (total : Int64) (raw : List Text) (tensor_split : Text) (id : Text) (ids : List Text)
      → IsNonneg total
      → total ≢ 0
      → clean_device_ids raw ≡ id ∷ ids
      → (resource_ids (split_estimate_across_devices fl total raw tensor_split) ≡ id ∷ ids)
        × (summed_bytes 0 (split_estimate_across_devices fl total raw tensor_split) ≡ total)
  unfolding split_estimate_across_devices summed_bytes
  split_estimate_total total raw tensor_split id [] h n e =
      rw (e, positive total h n) (refl, omega arith)
  split_estimate_total total raw tensor_split id (next ∷ ids) h n e =
      let several : (suc (suc (length ids)) == 1) ≡ false = ground arith in
      rw (e, positive total h n, several) (split_several total _ id (next ∷ ids) _ h)
