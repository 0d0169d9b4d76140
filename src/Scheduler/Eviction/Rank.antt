-- ===== src/Scheduler/Eviction/Rank.antt =====
-- backend/internal/scheduler/eviction.go: the ranking of the candidates, and the scalar plan.
use mathlib.Core.List.{Perm}
use mathlib.Core.List.Perm
use llama_rack.Base.{
  ℕ, ◌^◌, ◌%◌, All-map, refl, sym, ◌∙◌, subst, Bool, ◌&&◌, ◌||◌, ◌==◌, leb, if◌then◌else◌, ◌≤◌, ◌<◌,
  true, false, ◌≡◌, List, [], ◌∷◌, arith, All, Bool-cases, inl, inr, keep, ◌⊎◌,
}
use llama_rack.Base.Text.{Text, codes, text_eq, to_lower, trim_space}
use llama_rack.Scheduler.Eviction.{
  Candidate, is_evictable, rank_eviction_candidates, sort_candidates, insert_candidate,
  candidate_before, priority_rank,
}

insert_candidate-perm :
    (c : Candidate) (cs : List Candidate) → Perm (insert_candidate c cs) (c ∷ cs)
unfolding insert_candidate
insert_candidate-perm c [] = Perm.refl (c ∷ [])
insert_candidate-perm c (d ∷ ds) = elim (Bool-cases (candidate_before d c)) [
  | inl e ↦ rw e (Perm.trans (Perm.cons d (insert_candidate-perm c ds)) (Perm.swap c d ds))
  | inr e ↦ rw e (Perm.refl (c ∷ d ∷ ds))
]

sort_candidates-perm : (cs : List Candidate) → Perm (sort_candidates cs) cs
unfolding sort_candidates
sort_candidates-perm [] = Perm.refl []
sort_candidates-perm (c ∷ cs) =
    Perm.trans (insert_candidate-perm c (sort_candidates cs))
      (Perm.cons c (sort_candidates-perm cs))

-- A smaller rank of the priority comes first, and of one rank the earlier last use.
abbrev ComesBefore : Candidate → Candidate → Type 0
ComesBefore a b =
    (priority_rank a.priority < priority_rank b.priority)
    ⊎ ((priority_rank a.priority ≡ priority_rank b.priority) × (a.last_used ≤ b.last_used))

before-ComesBefore : (a b : Candidate) → candidate_before a b ≡ true → ComesBefore a b
unfolding candidate_before
before-ComesBefore a b h = ground arith

after-ComesBefore : (a b : Candidate) → candidate_before a b ≡ false → ComesBefore b a
unfolding candidate_before
after-ComesBefore a b h = ground arith

ComesBefore-trans : (a b c : Candidate) → ComesBefore a b → ComesBefore b c → ComesBefore a c
ComesBefore-trans a b c h k = omega arith

abbrev IsSorted : List Candidate → Type 0
IsSorted [] = Unit
IsSorted (c ∷ cs) = All (ComesBefore c) cs × IsSorted cs

All-ComesBefore :
    (a b : Candidate) (cs : List Candidate)
    → ComesBefore a b
    → All (ComesBefore b) cs
    → All (ComesBefore a) cs
All-ComesBefore a b [] h k = tt
All-ComesBefore a b (c ∷ cs) h k = (ComesBefore-trans a b c h k.0, All-ComesBefore a b cs h k.1)

pub insert_candidate-All :
    (P : Candidate → Type 0) (c : Candidate) (cs : List Candidate)
    → P c
    → All P cs
    → All P (insert_candidate c cs)
unfolding insert_candidate
insert_candidate-All P c [] p h = (p, tt)
insert_candidate-All P c (d ∷ ds) p h = elim (Bool-cases (candidate_before d c)) [
  | inl e ↦ rw e (h.0, insert_candidate-All P c ds p h.1)
  | inr e ↦ rw e (p, h)
]

insert_candidate-IsSorted :
    (c : Candidate) (cs : List Candidate) → IsSorted cs → IsSorted (insert_candidate c cs)
unfolding insert_candidate
insert_candidate-IsSorted c [] h = (tt, tt)
insert_candidate-IsSorted c (d ∷ ds) h = elim (Bool-cases (candidate_before d c)) [
  | inl e ↦ rw e (
    insert_candidate-All (ComesBefore d) c ds (before-ComesBefore d c e) h.0,
    insert_candidate-IsSorted c ds h.1,
  )
  | inr e ↦
      let first = after-ComesBefore d c e in rw e ((first, All-ComesBefore c d ds first h.0), h)
]

sort_candidates-IsSorted : (cs : List Candidate) → IsSorted (sort_candidates cs)
unfolding sort_candidates
sort_candidates-IsSorted [] = tt
sort_candidates-IsSorted (c ∷ cs) =
    insert_candidate-IsSorted c (sort_candidates cs) (sort_candidates-IsSorted cs)

-- What a priority means.
pub data Level : Type 0 where
  low normal high : Level

abbrev pub level_of : Text → Level
level_of priority =
    let p = to_lower (trim_space priority) in
    if text_eq p (codes "low") then low else if text_eq p (codes "high") then high else normal

abbrev pub Below : Level → Level → Type 0
Below low normal = Unit
Below low high = Unit
Below normal high = Unit
Below _ _ = ⊥

-- Low priority comes first and high priority last, and of one priority the instance whose last use is
-- longest ago; the zero time, of an instance that was never used, is the earliest instant.
abbrev pub Precedes : Candidate → Candidate → Type 0
Precedes a b =
    Below (level_of a.priority) (level_of b.priority)
    ⊎ ((level_of a.priority ≡ level_of b.priority) × (a.last_used ≤ b.last_used))

-- Each candidate precedes all that stand behind it.
abbrev pub IsRanked : List Candidate → Type 0
IsRanked [] = Unit
IsRanked (c ∷ cs) = All (Precedes c) cs × IsRanked cs

-- A candidate that is ready and may be evicted, and whose number of requests is not positive.
abbrev pub may_stop : Candidate → Bool
may_stop c =
    let requests = c.active_requests % 2 ^ 64 in
    c.ready && c.eviction_enabled && (requests == 0 || leb (2 ^ 63) requests)

abbrev rank_of : Level → ℕ
rank_of low = 0
rank_of normal = 1
rank_of high = 2

priority_rank-level_of : (p : Text) → priority_rank p ≡ rank_of (level_of p)
unfolding priority_rank
priority_rank-level_of p = ground arith

rank_of-Below : (a b : Level) → rank_of a < rank_of b → Below a b
rank_of-Below low low h = absurd (omega arith)
rank_of-Below low normal h = tt
rank_of-Below low high h = tt
rank_of-Below normal low h = absurd (omega arith)
rank_of-Below normal normal h = absurd (omega arith)
rank_of-Below normal high h = tt
rank_of-Below high low h = absurd (omega arith)
rank_of-Below high normal h = absurd (omega arith)
rank_of-Below high high h = absurd (omega arith)

rank_of-injective : (a b : Level) → rank_of a ≡ rank_of b → a ≡ b
rank_of-injective low low h = refl
rank_of-injective low normal h = absurd (omega arith)
rank_of-injective low high h = absurd (omega arith)
rank_of-injective normal low h = absurd (omega arith)
rank_of-injective normal normal h = refl
rank_of-injective normal high h = absurd (omega arith)
rank_of-injective high low h = absurd (omega arith)
rank_of-injective high normal h = absurd (omega arith)
rank_of-injective high high h = refl

ComesBefore-Precedes : (a b : Candidate) → ComesBefore a b → Precedes a b
ComesBefore-Precedes a b h =
    let left = priority_rank-level_of a.priority in
    let right = priority_rank-level_of b.priority in
    elim h [
      | inl less ↦ inl (
          rank_of-Below (level_of a.priority) (level_of b.priority)
            (omega (arith, left, right, less)))
      | inr (same, used) ↦ inr (
        rank_of-injective (level_of a.priority) (level_of b.priority) (sym left ∙ same ∙ right),
        used,
      )
    ]

IsSorted-IsRanked : (cs : List Candidate) → IsSorted cs → IsRanked cs
IsSorted-IsRanked [] h = tt
IsSorted-IsRanked (c ∷ cs) (first, rest) = (
  All-map (ComesBefore c) (Precedes c) cs (ComesBefore-Precedes c) first,
  IsSorted-IsRanked cs rest,
)

is_evictable-may_stop : (c : Candidate) → is_evictable c ≡ may_stop c
unfolding is_evictable
is_evictable-may_stop c = ground arith

keep-may_stop : (cs : List Candidate) → keep is_evictable cs ≡ keep may_stop cs
unfolding keep
keep-may_stop [] = refl
keep-may_stop (c ∷ cs) = rw (is_evictable-may_stop c, keep-may_stop cs) refl

-- The ranking holds the candidates that are ready, may be evicted and have no request, each as often
-- as it was given. Those of low priority come first and those of high priority last, and of one
-- priority those whose last use is longest ago.
pub rank_eviction_candidates-IsRanked :
    (cs : List Candidate)
    → Perm (rank_eviction_candidates cs) (keep may_stop cs) × IsRanked (rank_eviction_candidates cs)
unfolding rank_eviction_candidates
rank_eviction_candidates-IsRanked cs = (
  subst (Perm (rank_eviction_candidates cs)) (keep-may_stop cs)
      (sort_candidates-perm (keep is_evictable cs)),
  IsSorted-IsRanked (sort_candidates (keep is_evictable cs))
      (sort_candidates-IsSorted (keep is_evictable cs)),
)
