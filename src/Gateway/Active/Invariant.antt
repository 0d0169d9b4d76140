-- ===== src/Gateway/Active/Invariant.antt =====
-- backend/internal/gateway/active.go: the two maps and the entries agree.
use llama_rack.Base.{
  ◌≡◌, refl, true, ◌&&◌, ◌||◌, not, none, some, [], ◌∷◌, if◌then◌else◌, is_nil, arith, Bool-cases,
  Option-cases, inl, inr,
}
use llama_rack.Base.Text.{Text, text_eq, text_eq_iff}
use llama_rack.Base.Maps.{Map, lookup, delete, lookup-put, lookup-delete}
use llama_rack.Gateway.Active.{
  Pointer, ActiveRegistry, register, set_upstream_id, cancel_entry, remove,
}

-- Each id leads to an entry of that id, and what is found by an upstream id is registered.
pub record IsConsistent (g : ActiveRegistry) : Type 0 where
  pub managed :
      (m : Text) (r : Pointer) → lookup m g.by_manager ≡ some r → (g.heap r).manager_request_id ≡ m
  pub upstream :
      (u : Text) (r : Pointer) → lookup u g.by_upstream ≡ some r → (g.heap r).upstream_id ≡ u
  pub registered :
      (u : Text) (r : Pointer)
      → lookup u g.by_upstream ≡ some r
      → lookup (g.heap r).manager_request_id g.by_manager ≡ some r
  pub named : lookup [] g.by_upstream ≡ none

pub is_nil-true : (s : Text) → is_nil s ≡ true → s ≡ []
is_nil-true [] h = refl
is_nil-true (c ∷ s) h = ground (arith, h)

-- A pointer that a caller has made for this registration.
pub record IsFresh (r : Pointer) (g : ActiveRegistry) : Type 0 where
  pub id : lookup (g.heap r).manager_request_id g.by_manager ≡ none

pub register-IsConsistent :
    (r : Pointer) (g : ActiveRegistry) → IsConsistent g → IsFresh r g → IsConsistent (register r g)
unfolding register
register-IsConsistent r g inv fresh = elim (Bool-cases (is_nil (g.heap r).manager_request_id)) [
  | inl e ↦ rw e inv
  | inr e ↦ rw e (record {
    managed = λ m q h. ground (
      arith,
      lookup-put (g.heap r).manager_request_id m r g.by_manager,
      text_eq_iff (g.heap r).manager_request_id m,
      inv.managed m q,
      h,
    );
    upstream = λ u q h. ground (
      arith,
      lookup-put (g.heap r).upstream_id u r g.by_upstream,
      text_eq_iff (g.heap r).upstream_id u,
      inv.upstream u q,
      h,
    );
    named = ground (
      arith,
      lookup-put (g.heap r).upstream_id [] r g.by_upstream,
      text_eq_iff (g.heap r).upstream_id [],
      inv.named,
    );
    registered = λ u q h. ground (
      arith,
      lookup-put (g.heap r).manager_request_id (g.heap q).manager_request_id r g.by_manager,
      text_eq_iff (g.heap r).manager_request_id (g.heap q).manager_request_id,
      lookup-put (g.heap r).upstream_id u r g.by_upstream,
      inv.registered u q,
      fresh.id,
      h,
    );
  })
]

pub set_upstream_id-IsConsistent :
    (m u : Text) (g : ActiveRegistry) → IsConsistent g → IsConsistent (set_upstream_id m u g)
unfolding set_upstream_id
set_upstream_id-IsConsistent m u g inv = elim (Option-cases (lookup m g.by_manager)) [
  | inl e ↦ rw (set_upstream_id, e) inv
  | inr (r, e) ↦ elim (Bool-cases (is_nil m || is_nil u)) [
    | inl e' ↦ rw (set_upstream_id, e, e') inv
    | inr e' ↦
        rw (set_upstream_id, e, e')
          (record {
            managed = λ k q h. ground (arith, inv.managed k q h);
            upstream = λ k q h. ground (
              arith,
              lookup-put u k r (old_cleared r),
              lookup-delete (g.heap r).upstream_id k g.by_upstream,
              text_eq_iff u k,
              text_eq_iff (g.heap r).upstream_id u,
              text_eq_iff (g.heap r).upstream_id k,
              inv.upstream k q,
              is_nil-true (g.heap r).upstream_id,
              inv.named,
              h,
            );
            registered = λ k q h. ground (
              arith,
              lookup-put u k r (old_cleared r),
              lookup-delete (g.heap r).upstream_id k g.by_upstream,
              text_eq_iff u k,
              inv.managed m r e,
              inv.registered k q,
              h,
            );
            named = ground (
              arith,
              lookup-put u [] r (old_cleared r),
              lookup-delete (g.heap r).upstream_id [] g.by_upstream,
              text_eq_iff u [],
              inv.named,
            );
          })
  ]
]
  where
    old_cleared : Pointer → Map Pointer
    old_cleared r =
        if not (is_nil (g.heap r).upstream_id) && not (text_eq (g.heap r).upstream_id u)
        then delete (g.heap r).upstream_id g.by_upstream
        else g.by_upstream

pub cancel_entry-IsConsistent :
    (r : Pointer) (g : ActiveRegistry) → IsConsistent g → IsConsistent (cancel_entry r g)
unfolding cancel_entry
cancel_entry-IsConsistent r g inv = record {
  managed = λ k q h. ground (arith, inv.managed k q h);
  upstream = λ k q h. ground (arith, inv.upstream k q h);
  registered = λ k q h. ground (arith, inv.registered k q h);
  named = inv.named;
}

pub remove-IsConsistent :
    (m : Text) (g : ActiveRegistry) → IsConsistent g → IsConsistent (remove m g)
unfolding remove
remove-IsConsistent m g inv = elim (Option-cases (lookup m g.by_manager)) [
  | inl e ↦ rw (remove, e) inv
  | inr (r, e) ↦ elim (Bool-cases (is_nil m)) [
    | inl e' ↦ rw (remove, e, e') inv
    | inr e' ↦
        rw (remove, e, e')
          (record {
            managed = λ k q h. ground (arith, lookup-delete m k g.by_manager, inv.managed k q, h);
            upstream = λ k q h.
                ground (
                  arith,
                  lookup-delete (g.heap r).upstream_id k g.by_upstream,
                  inv.upstream k q,
                  h,
                );
            registered = λ k q h. ground (
              arith,
              lookup-delete (g.heap r).upstream_id k g.by_upstream,
              lookup-delete m (g.heap q).manager_request_id g.by_manager,
              text_eq_iff (g.heap r).upstream_id k,
              text_eq_iff m (g.heap q).manager_request_id,
              inv.registered k q,
              inv.upstream k q,
              is_nil-true (g.heap r).upstream_id,
              inv.named,
              e,
              h,
            );
            named =
                ground (arith, lookup-delete (g.heap r).upstream_id [] g.by_upstream, inv.named);
          })
  ]
]
