-- ===== src/Gateway/Active/Cancel.antt =====
-- backend/internal/gateway/active.go: who may cancel a request.
use llama_rack.Base.{
  ◌≡◌, refl, sym, subst, Bool, true, false, Option, some, ◌∷◌, ◌==◌, is_nil, Bool-cases,
  Option-cases, inl, inr, ◌⊎◌, if◌then◌else◌, arith,
}
use llama_rack.Base.Text.{Text}
use llama_rack.Base.Maps.{lookup}
use llama_rack.Gateway.Active.{
  Pointer, ActiveRegistry, passes, cancel_entry, cancel_by_upstream_authorized, new_active_registry,
}

-- A caller that may cancel what this pointer stands for, and finds it by this id.
pub record MayCancel (id : Text) (owner_allowed : Option (Text × Text → Bool))
    (instance_allowed : Option (Text → Bool)) (g : ActiveRegistry) (r : Pointer) : Type 0 where
  pub present : is_nil id ≡ false
  pub found : lookup id g.by_upstream ≡ some r
  pub owned : passes owner_allowed ((g.heap r).owner_kind, (g.heap r).owner_id) ≡ true
  pub allowed : passes instance_allowed (g.heap r).instance_id ≡ true
  pub running : (g.heap r).cancelled ≡ false

-- The ways of a cancellation.
pub cancel-cases :
    (id : Text) (owner_allowed : Option (Text × Text → Bool))
    (instance_allowed : Option (Text → Bool)) (g : ActiveRegistry)
    → (((cancel_by_upstream_authorized id owner_allowed instance_allowed g).0 ≡ g)
        × ((cancel_by_upstream_authorized id owner_allowed instance_allowed g).1.cancelled ≡ false))
      ⊎ ((r : Pointer) × MayCancel id owner_allowed instance_allowed g r
          × ((cancel_by_upstream_authorized id owner_allowed instance_allowed g).0
              ≡ cancel_entry r g)
          × ((cancel_by_upstream_authorized id owner_allowed instance_allowed g).1.cancelled
              ≡ true))
unfolding cancel_by_upstream_authorized
cancel-cases id owner_allowed instance_allowed g = elim (Bool-cases (is_nil id)) [
  | inl e ↦ inl (rw e (refl, refl))
  | inr e ↦ elim (Option-cases (lookup id g.by_upstream)) [
    | inl missing ↦ inl (rw (e, missing) (refl, refl))
    | inr (r, found) ↦
        elim (Bool-cases (passes owner_allowed ((g.heap r).owner_kind, (g.heap r).owner_id))) [
          | inr other ↦ inl (rw (e, found, other) (refl, refl))
          | inl owned ↦ elim (Bool-cases (passes instance_allowed (g.heap r).instance_id)) [
            | inr forbidden ↦ inl (rw (e, found, owned, forbidden) (refl, refl))
            | inl allowed ↦ elim (Bool-cases (g.heap r).cancelled) [
              | inl before ↦ inl (rw (e, found, owned, allowed, before) (refl, refl))
              | inr running ↦ inr (
                r,
                record {
                  present = e;
                  found = found;
                  owned = owned;
                  allowed = allowed;
                  running = running;
                },
                rw (e, found, owned, allowed, running) refl,
                rw (e, found, owned, allowed, running) refl,
              )
            ]
          ]
        ]
  ]
]

-- The registry behind a cancellation of what the pointer stands for.
pub record IsCancelled (r : Pointer) (g after : ActiveRegistry) : Type 0 where
  pub entry : after.heap r ≡ record (g.heap r) { cancelled = true }
  pub others : (q : Pointer) → (r == q) ≡ false → after.heap q ≡ g.heap q
  pub maps : (after.by_manager ≡ g.by_manager) × (after.by_upstream ≡ g.by_upstream)
  pub called : after.cancels ≡ (if (g.heap r).has_cancel then r ∷ g.cancels else g.cancels)

cancel_entry-IsCancelled : (r : Pointer) (g : ActiveRegistry) → IsCancelled r g (cancel_entry r g)
unfolding cancel_entry
cancel_entry-IsCancelled r g = record {
  entry = ground arith;
  others = λ q other. rw other refl;
  maps = (refl, refl);
  called = refl;
}

MayCancel-cancelled :
    (id : Text) (owner_allowed : Option (Text × Text → Bool))
    (instance_allowed : Option (Text → Bool)) (g : ActiveRegistry) (r : Pointer)
    → MayCancel id owner_allowed instance_allowed g r
    → (cancel_by_upstream_authorized id owner_allowed instance_allowed g).1.cancelled ≡ true
unfolding cancel_by_upstream_authorized
MayCancel-cancelled id owner_allowed instance_allowed g r may =
    rw (may.present, may.found, may.owned, may.allowed, may.running) refl

-- A cancellation by an upstream id does one of two things. Where the caller may cancel a request that
-- runs and that the id leads to, this request is marked as cancelled, its `cancel` is called if it
-- is set, the other requests and both maps stay, and the call reports that it cancelled. Where there
-- is no such request, the registry stays as it is, and the call reports that it cancelled nothing.
pub cancel-Outcome :
    (id : Text) (owner_allowed : Option (Text × Text → Bool))
    (instance_allowed : Option (Text → Bool)) (g : ActiveRegistry)
    → let (after, result) = cancel_by_upstream_authorized id owner_allowed instance_allowed g in
      ((after ≡ g)
        × (result.cancelled ≡ false)
        × ((r : Pointer) → ¬ MayCancel id owner_allowed instance_allowed g r))
      ⊎ ((r : Pointer) × MayCancel id owner_allowed instance_allowed g r
          × IsCancelled r g after
          × (result.cancelled ≡ true))
cancel-Outcome id owner_allowed instance_allowed g =
    elim (cancel-cases id owner_allowed instance_allowed g) [
      | inl (same, kept) ↦ inl (
        same,
        kept,
        λ r may.
            let done = MayCancel-cancelled id owner_allowed instance_allowed g r may in
            ground (arith, done, kept),
      )
      | inr (r, may, after, done) ↦
          inr (r, may, subst (IsCancelled r g) (sym after) (cancel_entry-IsCancelled r g), done)
    ]

-- A caller who does not own a request learns as little of it as of one that is not there: the answer
-- is "not found", nothing is cancelled, and the registry stays.
pub cancel-other_owner :
    (id : Text) (owner_allowed : Text × Text → Bool) (instance_allowed : Option (Text → Bool))
    (g : ActiveRegistry) (r : Pointer)
    → lookup id g.by_upstream ≡ some r
    → owner_allowed ((g.heap r).owner_kind, (g.heap r).owner_id) ≡ false
    → ((cancel_by_upstream_authorized id (some owner_allowed) instance_allowed g).0 ≡ g)
      × ((cancel_by_upstream_authorized id (some owner_allowed) instance_allowed g).1.auth
          ≡ (cancel_by_upstream_authorized id
              (some owner_allowed)
              instance_allowed
              (new_active_registry g.heap)).1.auth)
unfolding cancel_by_upstream_authorized lookup
cancel-other_owner id owner_allowed instance_allowed g r found other =
    elim (Bool-cases (is_nil id)) [
      | inl e ↦ rw e (refl, refl)
      | inr e ↦ rw (e, found, other) (refl, refl)
    ]
