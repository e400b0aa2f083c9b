-- ===== src/Text/Equal.antt =====
-- `==` of Go on texts.
use uni_pool_new_backend.Base.{
  ℕ, ◌≡◌, refl, true, ◌∷◌, [], List, arith, ◌==◌, ==→eq, ==_refl, &&_split,
}
use uni_pool_new_backend.Text.{codes_eq}

pub codes_eq→eq : (cs ds : List ℕ) → codes_eq cs ds ≡ true → cs ≡ ds
unfolding codes_eq
codes_eq→eq [] [] e = refl
codes_eq→eq [] (d ∷ ds) e = ground arith
codes_eq→eq (c ∷ cs) [] e = ground arith
codes_eq→eq (c ∷ cs) (d ∷ ds) e =
    let (heads, tails) = &&_split (c == d) (codes_eq cs ds) e in
    rw (==→eq c d heads, codes_eq→eq cs ds tails)

pub codes_eq_refl : (cs : List ℕ) → codes_eq cs cs ≡ true
unfolding codes_eq
codes_eq_refl [] = refl
codes_eq_refl (c ∷ cs) = rw (==_refl c, codes_eq_refl cs) refl
