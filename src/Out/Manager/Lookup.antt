-- ===== src/Out/Manager/Lookup.antt =====
-- `findIndex` and `removeFromIndex` of out/outc_manager.go: the first backend with an ID.
use wsbalancer.Prelude.{
  ℕ, suc, ◌+◌, ◌≡◌, refl, ◌≢◌, ap, List, [], ◌∷◌, ◌++◌, none, some, Text, count, count-append, same,
  same→eq, same_ne, length, length-append, take-length-append, drop-suc-length-append,
  get_elem?-length, All, returns, index, Bool-cases, Option-cases, inl, inr, arith, lt→ltb,
}
use mathlib.Core.Path.{subst}
use wsbalancer.Out.Backend.{Backend}
use wsbalancer.Out.Manager.{id_of, find_id, find_index, remove_from_index}

-- Where an ID stands in a list of backends: the first of them that has it is `found`.
pub record Found {C : Type 0} (store : ℕ → Backend C) (be : List ℕ) (id : Text) (i : ℕ)
    : Type 0 where
  pub before : List ℕ
  pub found : ℕ
  pub behind : List ℕ
  pub split : be ≡ before ++ found ∷ behind
  pub position : i ≡ length before
  pub has_id : id_of store found ≡ id
  pub first : All (λ r. id_of store r ≢ id) before

module _ {C : Type 0} {store : ℕ → Backend C} where
  Found-later :
      {be : List ℕ} {id : Text} {i : ℕ} (r : ℕ)
      → id_of store r ≢ id
      → Found store be id i
      → Found store (r ∷ be) id (suc i)
  Found-later r miss f = record {
    before = r ∷ f.before;
    found = f.found;
    behind = f.behind;
    split = ap (◌∷◌ r) f.split;
    position = ap suc f.position;
    has_id = f.has_id;
    first = (miss, f.first);
  }

module _ {C : Type 0} (store : ℕ → Backend C) where
  find_id-Found :
      (id : Text) (be : List ℕ) (i : ℕ) → find_id store id be ≡ some i → Found store be id i
  unfolding find_id
  find_id-Found id [] i e = absurd (cc)
  find_id-Found id (r ∷ be) i e = elim (Bool-cases (same (id_of store r) id)) [
    | inl hit ↦ record {
      before = [];
      found = r;
      behind = be;
      split = refl;
      position = ground arith;
      has_id = same→eq _ _ hit;
      first = tt;
    }
    | inr miss ↦ elim (Option-cases (find_id store id be)) [
      | inl n ↦ absurd (ground arith)
      | inr (j, n) ↦
          let at_suc : suc j ≡ i = ground arith in
          subst (Found store (r ∷ be) id) at_suc
            (Found-later r (same_ne _ _ miss) (find_id-Found id be j n))
    ]
  ]

  find_id-none :
      (id : Text) (be : List ℕ) → find_id store id be ≡ none → All (λ r. id_of store r ≢ id) be
  unfolding find_id
  find_id-none id [] e = tt
  find_id-none id (r ∷ be) e = elim (Bool-cases (same (id_of store r) id)) [
    | inl hit ↦ absurd (ground arith)
    | inr miss ↦ (same_ne _ _ miss, find_id-none id be (ground arith))
  ]

  -- `findIndex` gives the first place of the ID.
  pub find_index-Found :
      (be : List ℕ) (id : Text) (i : ℕ) → find_index store be id ≡ some i → Found store be id i
  unfolding find_index
  find_index-Found be [] i e = absurd (cc)
  find_index-Found be (c ∷ id) i e = find_id-Found (c ∷ id) be i e

  -- Where `findIndex` gives none for an ID that is not empty, no backend has it.
  pub find_index-none :
      (be : List ℕ) (id : Text)
      → id ≢ []
      → find_index store be id ≡ none
      → All (λ r. id_of store r ≢ id) be
  unfolding find_index
  find_index-none be [] h e = absurd (h refl)
  find_index-none be (c ∷ id) h e = find_id-none (c ∷ id) be e

module _ (xs : List ℕ) (y : ℕ) (ys : List ℕ) where
  pub remove_from_index_lem : remove_from_index (xs ++ y ∷ ys) (length xs) ≡ returns (xs ++ ys)
  unfolding remove_from_index
  remove_from_index_lem = rw (
    lt→ltb (length xs) (length (xs ++ y ∷ ys)) (omega (arith, length-append xs (y ∷ ys))),
    take-length-append xs (y ∷ ys),
    drop-suc-length-append xs y ys,
  )

  pub index-length : index (xs ++ y ∷ ys) (length xs) ≡ returns y
  index-length = rw (get_elem?-length xs y ys)

module _ {C : Type 0} {store : ℕ → Backend C} (be : List ℕ) (id : Text) (i : ℕ) where
  pub Found-index : (f : Found store be id i) → index be i ≡ returns f.found
  Found-index f = rw (f.split, f.position) (index-length f.before f.found f.behind)

  pub Found-remove :
      (f : Found store be id i) → remove_from_index be i ≡ returns (f.before ++ f.behind)
  Found-remove f = rw (f.split, f.position) (remove_from_index_lem f.before f.found f.behind)

  pub Found-count :
      (f : Found store be id i) (a : ℕ)
      → count a be ≡ count a (f.before ++ f.behind) + count a (f.found ∷ [])
  Found-count f a = omega (
    arith,
    ap (count a) f.split,
    count-append a f.before (f.found ∷ f.behind),
    count-append a f.before f.behind,
  )
