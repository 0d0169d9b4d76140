-- ===== src/Security/Login/Keys.antt =====
-- backend/internal/security/security.go: `loginKey` keeps accounts apart.
use llama_rack.Base.{ℕ, ◌≡◌, ◌≢◌, refl, [], ◌∷◌, ◌++◌, map, All, arith, ap₂, subst, ◌↔◌}
use llama_rack.Base.Text.{Text, trim_space}
use llama_rack.Security.Login.{login_key}

has_zero : (s t : Text) → ¬ All (λ c. c ≢ 0) (s ++ (0 ∷ t))
has_zero [] t h = h.0 refl
has_zero (c ∷ s) t h = has_zero s t h.1

-- What stands before and behind the last zero.
split_last :
    (s s' t t' : Text)
    → All (λ c. c ≢ 0) t
    → All (λ c. c ≢ 0) t'
    → s ++ (0 ∷ t) ≡ s' ++ (0 ∷ t')
    → (s ≡ s') × (t ≡ t')
split_last [] [] t t' h h' e = (refl, ground (arith, e))
split_last [] (c ∷ s') t t' h h' e =
    let rest : t ≡ s' ++ (0 ∷ t') = ground (arith, e) in
    absurd (has_zero s' t' (subst (All (λ c. c ≢ 0)) rest h))
split_last (c ∷ s) [] t t' h h' e =
    let rest : t' ≡ s ++ (0 ∷ t) = ground (arith, e) in
    absurd (has_zero s t (subst (All (λ c. c ≢ 0)) rest h'))
split_last (c ∷ s) (d ∷ s') t t' h h' e =
    let first : c ≡ d = ground (arith, e) in
    let rest : s ++ (0 ∷ t) ≡ s' ++ (0 ∷ t') = ground (arith, e) in
    let (es, et) = split_last s s' t t' h h' rest in (ap₂ (◌∷◌) first es, et)

-- Two attempts share their count exactly when their trimmed names are the same in lower case and their
-- trimmed addresses are the same, the addresses having no zero character, whatever the names have.
pub login_key_iff :
    (lower : ℕ → ℕ) (username username' address address' : Text)
    → All (λ c. c ≢ 0) (trim_space address)
    → All (λ c. c ≢ 0) (trim_space address')
    → (login_key lower username address ≡ login_key lower username' address') ↔ (
        (map lower (trim_space username) ≡ map lower (trim_space username'))
        × (trim_space address ≡ trim_space address'))
unfolding login_key
login_key_iff lower username username' address address' h h' = (
  split_last (map lower (trim_space username)) (map lower (trim_space username'))
      (trim_space address) (trim_space address') h h',
  λ e. ap₂ (λ s t. s ++ (0 ∷ t)) e.0 e.1,
)
