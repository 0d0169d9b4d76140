-- ===== src/Scheduler/Errors.antt =====
-- backend/internal/scheduler: the errors of the package, one for each message, and results. A search of
-- the model that has no rounds left gives an error of its own, `out_of_rounds`.
use llama_rack.Base.{◌≡◌, refl, ◌⊎◌, inl, inr}
use llama_rack.Base.Text.{Text}

pub data Error : Type 0 where
  required_bytes_negative : Error
  placement_mode_unknown : Error
  manual_device_missing : Error
  device_unavailable : Text → Error
  manual_demand_negative : Error
  manual_demand_mismatch : Error
  split_without_device : Error
  split_wrong_count : Error
  split_value_invalid : Text → Error
  split_without_positive : Error
  instance_id_required : Error
  owner_id_required : Error
  owner_kind_unknown : Error
  owner_conflict : Error
  lease_unknown : Error
  lease_not_pending : Error
  out_of_rounds : Error

-- A value and a nil error, or an error and the zero value, which no caller looks at.
pub data Result (V : Type 0) : Type 0 where
  err : Error → Result V
  ok : V → Result V

module _ {V W : Type 0} where
  infixl 5 ◌>>=◌
  abbrev pub ◌>>=◌ : Result V → (V → Result W) → Result W
  (err e) >>= next = err e
  (ok v) >>= next = next v

module _ {V : Type 0} where
  pub Result-cases : (r : Result V) → ((v : V) × (r ≡ ok v)) ⊎ ((e : Error) × (r ≡ err e))
  Result-cases (err e) = inr (e, refl)
  Result-cases (ok v) = inl (v, refl)
