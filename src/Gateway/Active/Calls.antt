-- ===== src/Gateway/Active/Calls.antt =====
-- backend/internal/gateway/active.go: every registry that the handlers can reach.
use llama_rack.Base.{
  ◌≡◌, ◌≢◌, refl, Bool, true, false, ◌||◌, Option, none, some, List, [], ◌∷◌, ◌==◌, ==_iff,
  if◌then◌else◌, is_nil, arith, Bool-cases, inl, inr, All, ap, sym, subst, ◌∙◌,
}
use llama_rack.Base.Text.{Text, text_eq_iff}
use llama_rack.Base.Maps.{lookup, lookup-delete, lookup-delete_self, lookup-put_self}
use llama_rack.Gateway.Active.{
  ActiveRequest, Pointer, ActiveRegistry, write, register, set_upstream_id, cancel_entry,
  cancel_by_upstream_authorized, remove, new_active_registry, get_by_upstream, is_removed,
}
use llama_rack.Gateway.Active.Invariant.{
  IsConsistent, register-IsConsistent, set_upstream_id-IsConsistent, cancel_entry-IsConsistent,
  remove-IsConsistent, is_nil-true,
}
use llama_rack.Gateway.Active.Cancel.{cancel-cases}

-- A pointer that no call has registered yet.
pub record IsNew (r : Pointer) (entry : ActiveRequest) (g : ActiveRegistry) : Type 0 where
  pub unused : All (λ q. (q == r) ≡ false) g.cancels
  pub unmanaged : (m : Text) → lookup m g.by_manager ≢ some r
  pub unnamed : (u : Text) → lookup u g.by_upstream ≢ some r
  pub id : lookup entry.manager_request_id g.by_manager ≡ none
  pub running : entry.cancelled ≡ false

-- One call. A registration comes with an entry that its caller has made.
pub data Step (g : ActiveRegistry) : ActiveRegistry → Type 0 where
  registers :
      (r : Pointer) (entry : ActiveRequest)
      → IsNew r entry g
      → Step g (register r (record g { heap = write r entry g.heap }))
  names : (m u : Text) → Step g (set_upstream_id m u g)
  authorizes :
      (id : Text) (owner_allowed : Option (Text × Text → Bool))
      (instance_allowed : Option (Text → Bool))
      → Step g (cancel_by_upstream_authorized id owner_allowed instance_allowed g).0
  removes : (m : Text) → Step g (remove m g)

pub data Reach (heap : Pointer → ActiveRequest) : ActiveRegistry → Type 0 where
  start : Reach heap (new_active_registry heap)
  next : {g g' : ActiveRegistry} → Reach heap g → Step g g' → Reach heap g'

-- Each request whose `cancel` was called is marked, and none stands twice.
abbrev pub Once : ActiveRegistry → List Pointer → Type 0
Once g [] = Unit
Once g (r ∷ rs) = (((g.heap r).cancelled ≡ true) × All (λ q. (q == r) ≡ false) rs) × Once g rs

-- An entry that is new memory leaves what the registry says.
written-IsConsistent :
    (r : Pointer) (entry : ActiveRequest) (g : ActiveRegistry)
    → IsConsistent g
    → IsNew r entry g
    → IsConsistent (record g { heap = write r entry g.heap })
written-IsConsistent r entry g inv new = record {
  managed = λ m q h. ground (arith, inv.managed m q h, new.unmanaged m, h);
  upstream = λ u q h. ground (arith, inv.upstream u q h, new.unnamed u, h);
  registered = λ u q h. ground (arith, inv.registered u q h, new.unnamed u, h);
  named = inv.named;
}

Step-IsConsistent : {g g' : ActiveRegistry} → Step g g' → IsConsistent g → IsConsistent g'
Step-IsConsistent {g = g} (registers r entry new) inv =
    register-IsConsistent r (record g { heap = write r entry g.heap })
      (written-IsConsistent r entry g inv new) (record { id = ground (arith, new.id) })
Step-IsConsistent {g = g} (names m u) inv = set_upstream_id-IsConsistent m u g inv
Step-IsConsistent {g = g} (authorizes id owner_allowed instance_allowed) inv =
    elim (cancel-cases id owner_allowed instance_allowed g) [
      | inl (same, _) ↦ rw same inv
      | inr (r, _, e, _) ↦ rw e (cancel_entry-IsConsistent r g inv)
    ]
Step-IsConsistent {g = g} (removes m) inv = remove-IsConsistent m g inv

-- In every registry that the handlers can reach, each manager id and each upstream id leads to an entry
-- of that id, and every entry that an upstream id leads to is registered.
pub Reach-IsConsistent :
    {heap : Pointer → ActiveRequest} {g : ActiveRegistry} → Reach heap g → IsConsistent g
unfolding lookup
Reach-IsConsistent start = record {
  managed = λ m r h. ground (arith, h);
  upstream = λ u r h. ground (arith, h);
  registered = λ u r h. ground (arith, h);
  named = refl;
}
Reach-IsConsistent (next r s) = Step-IsConsistent s (Reach-IsConsistent r)

-- The marks stay where they are kept.
Once-keep :
    (g g' : ActiveRegistry) (P : Pointer → Type 0) (rs : List Pointer)
    → ((q : Pointer) → P q → (g.heap q).cancelled ≡ true → (g'.heap q).cancelled ≡ true)
    → All P rs
    → Once g rs
    → Once g' rs
Once-keep g g' P [] keeps ps once = tt
Once-keep g g' P (q ∷ rs) keeps (p, ps) ((marked, apart), once) =
    ((keeps q p marked, apart), Once-keep g g' P rs keeps ps once)

-- A request that runs has not been cancelled before.
Once-apart :
    (g : ActiveRegistry) (r : Pointer) (rs : List Pointer)
    → (g.heap r).cancelled ≡ false
    → Once g rs
    → All (λ q. (q == r) ≡ false) rs
Once-apart g r [] running once = tt
Once-apart g r (q ∷ rs) running ((marked, apart), once) =
    (other q marked, Once-apart g r rs running once)
  where
    other : (q : Pointer) → (g.heap q).cancelled ≡ true → (q == r) ≡ false
    other q marked = elim (Bool-cases (q == r)) [
      | inr e ↦ e
      | inl e ↦ absurd (
          ground
            (arith, subst (λ q. (g.heap q).cancelled ≡ true) ((==_iff q r).0 e) marked, running))
    ]

everywhere : (rs : List Pointer) → All (λ q. Unit {0}) rs
everywhere [] = tt
everywhere (q ∷ rs) = (tt, everywhere rs)

cancel_entry-Once :
    (r : Pointer) (g : ActiveRegistry)
    → (g.heap r).cancelled ≡ false
    → Once g g.cancels
    → Once (cancel_entry r g) (cancel_entry r g).cancels
unfolding cancel_entry
cancel_entry-Once r g running once =
    let g' = cancel_entry r g in
    let kept : Once g' g.cancels =
      Once-keep g g' (λ q. Unit) g.cancels (λ q _ marked. ground (arith, marked))
        (everywhere g.cancels) once in
    pick (g.heap r).has_cancel kept ((marked, Once-apart g r g.cancels running once), kept)
  where
    pick :
        (b : Bool)
        → Once (cancel_entry r g) g.cancels
        → Once (cancel_entry r g) (r ∷ g.cancels)
        → Once (cancel_entry r g) (if b then r ∷ g.cancels else g.cancels)
    pick true less more = more
    pick false less more = less

    marked : ((cancel_entry r g).heap r).cancelled ≡ true
    marked = ground arith

-- A call that cancels nothing keeps the marks.
Once-carry :
    (g g' : ActiveRegistry) (P : Pointer → Type 0)
    → g'.cancels ≡ g.cancels
    → ((q : Pointer) → P q → (g.heap q).cancelled ≡ true → (g'.heap q).cancelled ≡ true)
    → All P g.cancels
    → Once g g.cancels
    → Once g' g'.cancels
Once-carry g g' P same keeps ps once = rw same (Once-keep g g' P g.cancels keeps ps once)

set_upstream_id-marks :
    (m u : Text) (g : ActiveRegistry)
    → ((set_upstream_id m u g).cancels ≡ g.cancels)
      × ((q : Pointer) → ((set_upstream_id m u g).heap q).cancelled ≡ (g.heap q).cancelled)
unfolding set_upstream_id
set_upstream_id-marks m u g = (ground arith, λ q. ground arith)

remove-marks :
    (m : Text) (g : ActiveRegistry)
    → ((remove m g).cancels ≡ g.cancels) × ((remove m g).heap ≡ g.heap)
unfolding remove
remove-marks m g = (ground arith, ground arith)

register-marks :
    (r : Pointer) (g : ActiveRegistry)
    → ((register r g).cancels ≡ g.cancels) × ((register r g).heap ≡ g.heap)
unfolding register
register-marks r g = (ground arith, ground arith)

Step-Once : {g g' : ActiveRegistry} → Step g g' → Once g g.cancels → Once g' g'.cancels
Step-Once {g = g} (registers r entry new) once =
    let g1 : ActiveRegistry = record g { heap = write r entry g.heap } in
    let (same, heap) = register-marks r g1 in
    Once-carry g (register r g1) (λ q. (q == r) ≡ false) same
      (λ q other marked. ground (arith, ap (λ h. (h q).cancelled) heap, other, marked)) new.unused
      once
Step-Once {g = g} (names m u) once =
    let (same, marks) = set_upstream_id-marks m u g in
    Once-carry g (set_upstream_id m u g) (λ q. Unit) same (λ q _ marked. marks q ∙ marked)
      (everywhere g.cancels) once
Step-Once {g = g} (authorizes id owner_allowed instance_allowed) once =
    elim (cancel-cases id owner_allowed instance_allowed g) [
      | inl (same, _) ↦ rw same once
      | inr (r, may, e, _) ↦ rw e (cancel_entry-Once r g may.running once)
    ]
Step-Once {g = g} (removes m) once =
    let (same, heap) = remove-marks m g in
    Once-carry g (remove m g) (λ q. Unit) same
      (λ q _ marked. ap (λ h. (h q).cancelled) heap ∙ marked) (everywhere g.cancels) once

-- No request is cancelled twice: in every registry that the handlers can reach, `cancel` has been called
-- at most once on each entry, and only on entries that are marked as cancelled.
pub Reach-Once :
    {heap : Pointer → ActiveRequest} {g : ActiveRegistry} → Reach heap g → Once g g.cancels
Reach-Once start = tt
Reach-Once (next r s) = Step-Once s (Reach-Once r)

remove-found :
    (m : Text) (r : Pointer) (g : ActiveRegistry)
    → IsConsistent g
    → lookup m g.by_manager ≡ some r
    → is_nil m ≡ false
    → (u : Text) → lookup u (remove m g).by_upstream ≢ some r
unfolding remove
remove-found m r g inv found named u =
    rw (remove, found, named)
      (λ h. ground (
        arith,
        lookup-delete (g.heap r).upstream_id u g.by_upstream,
        inv.upstream u r,
        text_eq_iff (g.heap r).upstream_id u,
        is_nil-true (g.heap r).upstream_id,
        inv.named,
        h,
      ))

-- A request that is removed is gone: no upstream id leads to it any more, and who waits for its removal
-- is let go.
pub remove-gone :
    {heap : Pointer → ActiveRequest} {g : ActiveRegistry} (m : Text) (r : Pointer)
    → Reach heap g
    → is_nil m ≡ false
    → lookup m g.by_manager ≡ some r
    → (is_removed m (remove m g) ≡ true) × ((u : Text) → lookup u (remove m g).by_upstream ≢ some r)
unfolding is_removed remove
remove-gone {g = g} m r reach named found = (
  rw (is_removed, remove, found, named, lookup-delete_self m g.by_manager) refl,
  remove-found m r g (Reach-IsConsistent reach) found named,
)

moved :
    (m u : Text) (r : Pointer) (g : ActiveRegistry)
    → (is_nil m || is_nil u) ≡ false
    → lookup m g.by_manager ≡ some r
    → ((set_upstream_id m u g).heap r ≡ record (g.heap r) { upstream_id = u })
      × (lookup u (set_upstream_id m u g).by_upstream ≡ some r)
unfolding set_upstream_id
moved m u r g named found =
    rw (set_upstream_id, found, named, lookup-put_self) ((==_self (g.heap r)), refl)
  where
    ==_self :
        (entry : ActiveRequest)
        → write r (record entry { upstream_id = u }) g.heap r ≡ record entry { upstream_id = u }
    ==_self entry = ground arith

-- A request that gets another upstream id is found by it, and by no other.
pub set_upstream_id-moves :
    {heap : Pointer → ActiveRequest} {g : ActiveRegistry} (m u : Text) (r : Pointer)
    → Reach heap g
    → (is_nil m || is_nil u) ≡ false
    → lookup m g.by_manager ≡ some r
    → (get_by_upstream u (set_upstream_id m u g) ≡ some (record (g.heap r) { upstream_id = u }))
      × ((v : Text) → v ≢ u → lookup v (set_upstream_id m u g).by_upstream ≢ some r)
unfolding get_by_upstream
set_upstream_id-moves {g = g} m u r reach named found =
    let inv = set_upstream_id-IsConsistent m u g (Reach-IsConsistent reach) in
    let (entry, there) = moved m u r g named found in
    let named_u : is_nil u ≡ false = ground (arith, named) in
    (
      rw (named_u, there) (ap some entry),
      λ v other h. other (sym (inv.upstream v r h) ∙ ap (λ e. e.upstream_id) entry),
    )
