-- ===== src/Balancer/Pool.antt =====
-- The accounts as a pool with distinct ids: taking one out by its id.
use mathlib.Core.List.{Perm}
use mathlib.Core.List.Perm
use better_ccflare_rs.Base.{
  subst, Pairs, ◌≡◌, refl, sym, ap, inl, inr, Bool, true, false, not, ◌&&◌, String, List, [], ◌∷◌,
  arith, In, All, All-In, Bool-cases, filter, str_eq, str_eq_iff,
}
use better_ccflare_rs.Account.{Account}

-- No two accounts of the list have one id.
abbrev pub Distinct : List Account → Type 0
Distinct = Pairs (λ a b. str_eq b.id a.id ≡ false)

pub str_eq_flip : (s t : String) → str_eq s t ≡ false → str_eq t s ≡ false
str_eq_flip s t h = ground (arith, str_eq_iff s t, str_eq_iff t s)

str_eq_same : (s : String) → str_eq s s ≡ true
str_eq_same s = (str_eq_iff s s).1 refl

abbrev pub unlike : Account → Account → Bool
unlike c a = not (str_eq a.id c.id)

filter-unlike :
    (c : Account) (xs : List Account)
    → All (λ b. str_eq b.id c.id ≡ false) xs
    → filter (unlike c) xs ≡ xs
filter-unlike c [] h = refl
filter-unlike c (x ∷ xs) h = rw (h.0) (ap (◌∷◌ x) (filter-unlike c xs h.1))

unlike-perm_head :
    (x : Account) (xs : List Account)
    → Distinct (x ∷ xs)
    → Perm (x ∷ filter (unlike x) (x ∷ xs)) (x ∷ xs)
unlike-perm_head x xs d = rw (str_eq_same x.id) (rw (filter-unlike x xs d.0) (Perm.refl (x ∷ xs)))

-- The account put first and the rest without its id are the whole pool.
pub unlike-perm :
    (c : Account) (xs : List Account) → Distinct xs → In c xs → Perm (c ∷ filter (unlike c) xs) xs
unlike-perm c [] d i = absurd i
unlike-perm c (x ∷ xs) d (inl e) =
    subst (λ u. Perm (u ∷ filter (unlike u) (x ∷ xs)) (x ∷ xs)) (sym e) (unlike-perm_head x xs d)
unlike-perm c (x ∷ xs) d (inr i) =
    rw (str_eq_flip c.id x.id (All-In (λ b. str_eq b.id x.id ≡ false) c xs d.0 i))
      (Perm.trans (Perm.swap x c _) (Perm.cons x (unlike-perm c xs d.1 i)))

All-filter :
    (P : Account → Type 0) (p : Account → Bool) (xs : List Account) → All P xs → All P (filter p xs)
All-filter P p [] h = h
All-filter P p (x ∷ xs) h = elim (Bool-cases (p x)) [
  | inl e ↦ rw e (h.0, All-filter P p xs h.1)
  | inr e ↦ rw e (All-filter P p xs h.1)
]

pub filter-Distinct :
    (p : Account → Bool) (xs : List Account) → Distinct xs → Distinct (filter p xs)
filter-Distinct p [] d = d
filter-Distinct p (x ∷ xs) d = elim (Bool-cases (p x)) [
  | inl e ↦ rw e (All-filter _ p xs d.0, filter-Distinct p xs d.1)
  | inr e ↦ rw e (filter-Distinct p xs d.1)
]

pub filter-filter :
    (p q : Account → Bool) (xs : List Account)
    → filter (λ a. p a && q a) xs ≡ filter p (filter q xs)
filter-filter p q [] = refl
filter-filter p q (x ∷ xs) = ground (arith, filter-filter p q xs)

pub filter-passes : (p : Account → Bool) (xs : List Account) → All (λ a. p a ≡ true) (filter p xs)
filter-passes p [] = tt
filter-passes p (x ∷ xs) = elim (Bool-cases (p x)) [
  | inl e ↦ rw e (e, filter-passes p xs)
  | inr e ↦ rw e (filter-passes p xs)
]
