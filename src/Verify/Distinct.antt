-- ===== src/Verify/Distinct.antt =====
-- Tables in which no two challenges have the same id or the same token.
use uni_pool_new_backend.Base.{
  ℕ, ◌≡◌, sym, ap, ◌∙◌, ◌≢◌, inl, inr, Bool, true, List, [], ◌∷◌, ◌++◌, if◌then◌else◌, arith, Memᴰ,
  All, All-map, All-append, All-update, All-delete, All-member, Bool-cases, update_where,
  delete_where, count_where,
}
use uni_pool_new_backend.Text.{codes_eq}
use uni_pool_new_backend.Text.Equal.{codes_eq_refl}
use uni_pool_new_backend.Verify.{EmailVerification}

abbrev pub IsApart : EmailVerification → EmailVerification → Type 0
IsApart v w = (w.id ≢ v.id) × (w.token ≢ v.token)

abbrev pub IsDistinct : List EmailVerification → Type 0
IsDistinct [] = Unit
IsDistinct (v ∷ vs) = All (IsApart v) vs × IsDistinct vs

-- v is the only row with its id and the only one with its token.
abbrev pub IsSole : EmailVerification → List EmailVerification → Type 0
IsSole v = All (λ w. (w.id ≡ v.id → w ≡ v) × (w.token ≡ v.token → w ≡ v))

-- An update that keeps the two keys.
abbrev pub IsKeeping : (EmailVerification → EmailVerification) → Type 0
IsKeeping f = (v : EmailVerification) → ((f v).id ≡ v.id) × ((f v).token ≡ v.token)

pub IsDistinct-update :
    (p : EmailVerification → Bool) (f : EmailVerification → EmailVerification)
    (vs : List EmailVerification)
    → IsKeeping f
    → IsDistinct vs
    → IsDistinct (update_where p f vs)
unfolding update_where
IsDistinct-update p f [] same d = tt
IsDistinct-update p f (v ∷ vs) same d = (
  All-update p f vs (λ w _ a. (rw ((same w).0, head_id) a.0, rw ((same w).1, head_token) a.1))
      (λ w _ a. (rw head_id a.0, rw head_token a.1)) d.0,
  IsDistinct-update p f vs same d.1,
)
  where
    head_id : (if p v then f v else v).id ≡ v.id
    head_id = elim (Bool-cases (p v)) [ inl e ↦ rw e (same v).0 | inr e ↦ rw e ]

    head_token : (if p v then f v else v).token ≡ v.token
    head_token = elim (Bool-cases (p v)) [ inl e ↦ rw e (same v).1 | inr e ↦ rw e ]

pub IsDistinct-delete :
    (p : EmailVerification → Bool) (vs : List EmailVerification)
    → IsDistinct vs
    → IsDistinct (delete_where p vs)
unfolding delete_where
IsDistinct-delete p [] d = tt
IsDistinct-delete p (v ∷ vs) d = elim (Bool-cases (p v)) [
  | inl e ↦ rw e (IsDistinct-delete p vs d.1)
  | inr e ↦ rw e (All-delete (IsApart v) p vs d.0, IsDistinct-delete p vs d.1)
]

pub IsDistinct-snoc :
    (vs : List EmailVerification) (v : EmailVerification)
    → All (IsApart v) vs
    → IsDistinct vs
    → IsDistinct (vs ++ (v ∷ []))
IsDistinct-snoc [] v fresh d = (tt, tt)
IsDistinct-snoc (w ∷ ws) v fresh d = (
  All-append (IsApart w) ws (v ∷ []) d.0 ((λ e. fresh.0.0 (sym e), λ e. fresh.0.1 (sym e)), tt),
  IsDistinct-snoc ws v fresh.1 d.1,
)

pub IsDistinct-IsSole :
    (vs : List EmailVerification) (v : EmailVerification) → IsDistinct vs → Memᴰ v vs → IsSole v vs
IsDistinct-IsSole [] v d m = elim m [ ]
IsDistinct-IsSole (w ∷ ws) v d (Memᴰ.head e) = (
  (λ _. sym e, λ _. sym e),
  All-map ws
      (λ x a.
        (λ at. absurd (a.0 (at ∙ ap (λ y. y.id) e)), λ at. absurd (a.1 (at ∙ ap (λ y. y.token) e))))
      d.0,
)
IsDistinct-IsSole (w ∷ ws) v d (Memᴰ.tail m) =
    let apart = All-member (IsApart w) ws v d.0 m in
    (
      (λ at. absurd (apart.0 (sym at)), λ at. absurd (apart.1 (sym at))),
      IsDistinct-IsSole ws v d.1 m,
    )

-- The check of the unique index.
pub token_taken-All :
    (token : List ℕ) (vs : List EmailVerification)
    → count_where (λ v. codes_eq v.token token) vs ≡ 0
    → All (λ v. v.token ≢ token) vs
unfolding count_where
token_taken-All token [] e = tt
token_taken-All token (v ∷ vs) e = (
  λ same.
      let hit : codes_eq v.token token ≡ true = rw same (codes_eq_refl token) in
      absurd (ground arith),
  token_taken-All token vs (ground arith),
)
