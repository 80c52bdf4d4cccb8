-- ===== src/Base/Maps.antt =====
-- Maps with string keys (`DashMap`, `HashMap`) as lists of entries, one for each key. The order of
-- the list stands for the order in which an iteration meets the entries.
use better_ccflare_rs.Base.{
  filter-In, In-filter, suc, ◌≤◌, String, ◌≡◌, refl, sym, ap, ◌∙◌, ◌⊎◌, inl, inr, Bool, true, false,
  not, Option, none, some, List, [], ◌∷◌, arith, str_eq, str_eq_iff, if◌then◌else◌, Bool-cases,
  length, filter, In, All, Pairs, All-In, All-of_In,
}

abbrev pub Map : Type 0 → Type 0
Map A = List (String × A)

module _ {A : Type 0} where
  unfoldable pub get : String → Map A → Option A
  get k [] = none
  get k (e ∷ m) = let rest = get k m in if str_eq e.0 k then some e.1 else rest

  unfoldable pub remove : String → Map A → Map A
  remove k m = filter (λ e. not (str_eq e.0 k)) m

  unfoldable pub set : String → A → Map A → Map A
  set k a m = (k, a) ∷ remove k m

  -- No two entries have one key.
  abbrev pub OnePerKey : Map A → Type 0
  OnePerKey = Pairs (λ d e. str_eq e.0 d.0 ≡ false)

pub str_eq_refl : (s : String) → str_eq s s ≡ true
str_eq_refl s = (str_eq_iff s s).1 refl

pub str_eq_swap : (s t : String) → str_eq s t ≡ false → str_eq t s ≡ false
str_eq_swap s t h = ground (arith, str_eq_iff s t, str_eq_iff t s)

module _ {A : Type 0} where
  -- What is left in the map by `remove`.
  pub In-remove :
      (k : String) (e : String × A) (m : Map A)
      → In e (remove k m)
      → In e m × (str_eq e.0 k ≡ false)
  unfolding remove
  In-remove k e m i =
      let (j, q) = In-filter (λ d. not (str_eq d.0 k)) e m i in (j, ground (arith, q))

  pub remove-In :
      (k : String) (e : String × A) (m : Map A) → In e m → str_eq e.0 k ≡ false → In e (remove k m)
  unfolding remove
  remove-In k e m i q = filter-In (λ d. not (str_eq d.0 k)) e m i (rw q refl)

  All-filter_keys :
      (P : String × A → Type 0) (p : String × A → Bool) (m : Map A) → All P m → All P (filter p m)
  All-filter_keys P p [] h = h
  All-filter_keys P p (e ∷ m) h = elim (Bool-cases (p e)) [
    | inl q ↦ rw q (h.0, All-filter_keys P p m h.1)
    | inr q ↦ rw q (All-filter_keys P p m h.1)
  ]

  filter-OnePerKey : (p : String × A → Bool) (m : Map A) → OnePerKey m → OnePerKey (filter p m)
  filter-OnePerKey p [] h = h
  filter-OnePerKey p (e ∷ m) h = elim (Bool-cases (p e)) [
    | inl q ↦ rw q (All-filter_keys _ p m h.0, filter-OnePerKey p m h.1)
    | inr q ↦ rw q (filter-OnePerKey p m h.1)
  ]

  pub remove-OnePerKey : (k : String) (m : Map A) → OnePerKey m → OnePerKey (remove k m)
  unfolding remove
  remove-OnePerKey k m h = filter-OnePerKey _ m h

  pub set-OnePerKey : (k : String) (a : A) (m : Map A) → OnePerKey m → OnePerKey (set k a m)
  unfolding set
  set-OnePerKey k a m h =
      (All-of_In _ (remove k m) (λ e i. (In-remove k e m i).1), remove-OnePerKey k m h)

  pub length-remove_le : (k : String) (m : Map A) → length (remove k m) ≤ length m
  unfolding remove
  length-remove_le k [] = omega arith
  length-remove_le k (e ∷ m) = ground (arith, length-remove_le k m)

  remove-absent : (k : String) (m : Map A) → All (λ e. str_eq e.0 k ≡ false) m → remove k m ≡ m
  unfolding remove
  remove-absent k [] h = refl
  remove-absent k (e ∷ m) h = rw (h.0) (ap (◌∷◌ e) (remove-absent k m h.1))

  remove-head : (d : String × A) (m : Map A) → OnePerKey (d ∷ m) → remove d.0 (d ∷ m) ≡ m
  unfolding remove
  remove-head d m h = rw (str_eq_refl d.0) (remove-absent d.0 m h.0)

  remove-tail :
      (k : String) (d : String × A) (m : Map A)
      → str_eq d.0 k ≡ false
      → remove k (d ∷ m) ≡ d ∷ remove k m
  unfolding remove
  remove-tail k d m h = rw h refl

  -- Removing a key that is there takes one entry out.
  pub length-remove :
      (e : String × A) (m : Map A) → OnePerKey m → In e m → suc (length (remove e.0 m)) ≡ length m
  length-remove e [] u i = absurd i
  length-remove e (d ∷ m) u (inl q) =
      ap (λ f. suc (length (remove f.0 (d ∷ m)))) q ∙ ap (λ l. suc (length l)) (remove-head d m u)
  length-remove e (d ∷ m) u (inr i) =
      let unlike = str_eq_swap e.0 d.0 (All-In _ e m u.0 i) in
      ap (λ l. suc (length l)) (remove-tail e.0 d m unlike) ∙ ap suc (length-remove e m u.1 i)

  pub get-In : (k : String) (m : Map A) (a : A) → get k m ≡ some a → In (k, a) m
  unfolding get
  get-In k [] a h = cc
  get-In k ((j, b) ∷ m) a h = elim (Bool-cases (str_eq j k)) [
    | inl q ↦ inl (
        ap (λ i. (i, a)) (sym ((str_eq_iff j k).0 q))
        ∙ ap (λ x. (j, x)) (some_same a b (sym h ∙ rw q refl)))
    | inr q ↦ inr (get-In k m a (rw (q, get) at h))
  ]
    where
      some_same : (a b : A) → some a ≡ some b → a ≡ b
      some_same a b h = cc

  -- Keys other than the one that is set keep their entries.
  pub set-In :
      (k : String) (a b : A) (e : String) (m : Map A)
      → In (e, b) m
      → (c : A) × In (e, c) (set k a m)
  unfolding set
  set-In k a b e m i = elim (Bool-cases (str_eq e k)) [
    | inl q ↦ (a, inl (ap (λ j. (j, a)) ((str_eq_iff e k).0 q)))
    | inr q ↦ (b, inr (remove-In k (e, b) m i q))
  ]

  pub In-set :
      (k : String) (a : A) (e : String × A) (m : Map A) → In e (set k a m) → (e ≡ (k, a)) ⊎ In e m
  unfolding set
  In-set k a e m (inl q) = inl q
  In-set k a e m (inr i) = inr (In-remove k e m i).0
