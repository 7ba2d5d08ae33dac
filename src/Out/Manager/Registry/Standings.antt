-- ===== src/Out/Manager/Registry/Standings.antt =====
-- How the lists of the pool show the standing of an ID.
use wsbalancer.Prelude.{
  ℕ, ◌≤◌, ◌≡◌, refl, ◌≢◌, inl, inr, Bool, true, false, List, [], ◌∷◌, ◌++◌, Option, none, some,
  Text, count, same, same_iff, same→eq, All, Bool-cases, arith, if◌then◌else◌,
}
use wsbalancer.Out.Backend.{Backend}
use wsbalancer.Out.Manager.{Manager, id_of, find_id, find_index}
use wsbalancer.Out.Manager.Registry.{Standing, absent, enabled, disabled, standing}

-- A list seen through a search.
abbrev pub is_some : Option ℕ → Bool
is_some none = false
is_some (some i) = true

abbrev pub by_lists : Bool → Bool → Standing
by_lists dis be = if dis then disabled else if be then enabled else absent

-- An ID that moves between the lists, or is taken out of both.
pub by_lists-disabled :
    (hit d b : Bool)
    → by_lists (if d then true else if hit then true else false) (if hit then false else b)
      ≡ (if hit then disabled else by_lists d b)
by_lists-disabled true true b = refl
by_lists-disabled true false b = refl
by_lists-disabled false true b = refl
by_lists-disabled false false b = refl

pub by_lists-enabled :
    (hit d b : Bool)
    → by_lists (if hit then false else d) (if b then true else if hit then true else false)
      ≡ (if hit then enabled else by_lists d b)
by_lists-enabled true d true = refl
by_lists-enabled true d false = refl
by_lists-enabled false d true = refl
by_lists-enabled false d false = refl

pub by_lists-absent :
    (hit d b d' b' : Bool)
    → d' ≡ (if hit then false else d)
    → b' ≡ (if hit then false else b)
    → by_lists d' b' ≡ (if hit then absent else by_lists d b)
by_lists-absent true d b d' b' p q = rw (p, q) refl
by_lists-absent false d b d' b' p q = rw (p, q) refl

module _ {C : Type 0} where
  -- Some listed backend has the ID.
  abbrev pub has : (ℕ → Backend C) → List ℕ → Text → Bool
  has store [] id = false
  has store (r ∷ be) id = if same (id_of store r) id then true else has store be id

  find_id-has :
      (store : ℕ → Backend C) (id : Text) (be : List ℕ)
      → is_some (find_id store id be) ≡ has store be id
  unfolding find_id
  find_id-has store id [] = refl
  find_id-has store id (r ∷ be) = ground (arith, find_id-has store id be)

  pub find_index-has :
      (store : ℕ → Backend C) (be : List ℕ) (c : ℕ) (id : Text)
      → is_some (find_index store be (c ∷ id)) ≡ has store be (c ∷ id)
  unfolding find_index
  find_index-has store be c id = find_id-has store (c ∷ id) be

  pub has-append :
      (store : ℕ → Backend C) (xs ys : List ℕ) (id : Text)
      → has store (xs ++ ys) id ≡ (if has store xs id then true else has store ys id)
  has-append store [] ys id = refl
  has-append store (r ∷ xs) ys id = ground (arith, has-append store xs ys id)

  -- The IDs are all that counts.
  pub has-store :
      (store store' : ℕ → Backend C) (be : List ℕ) (id : Text)
      → ((a : ℕ) → id_of store' a ≡ id_of store a)
      → has store' be id ≡ has store be id
  has-store store store' [] id h = refl
  has-store store store' (r ∷ be) id h = rw (h r, has-store store store' be id h) refl

  pub has-mem :
      (store : ℕ → Backend C) (be : List ℕ) (id : Text)
      → has store be id ≡ true
      → (a : ℕ) × (1 ≤ count a be) × (id_of store a ≡ id)
  has-mem store [] id h = absurd (cc)
  has-mem store (r ∷ be) id h = elim (Bool-cases (same (id_of store r) id)) [
    | inl hit ↦ (r, ground arith, same→eq _ _ hit)
    | inr miss ↦
        let (a, among, e) = has-mem store be id (rw (miss) at h) in (a, ground (arith, among), e)
  ]

  pub has-All :
      (store : ℕ → Backend C) (be : List ℕ) (id : Text)
      → All (λ r. id_of store r ≢ id) be
      → has store be id ≡ false
  has-All store [] id h = refl
  has-All store (r ∷ be) id h =
      ground (arith, same_iff (id_of store r) id, h.0, has-All store be id h.1)

  pub standing_lem :
      (m : Manager C) (c : ℕ) (id : Text)
      → standing m (c ∷ id)
        ≡ by_lists (has m.store m.disabled_be (c ∷ id)) (has m.store m.backends (c ∷ id))
  unfolding standing
  standing_lem m c id =
      ground
        (arith, find_index-has m.store m.disabled_be c id, find_index-has m.store m.backends c id)

  pub standing-nil : (m : Manager C) → standing m [] ≡ absent
  unfolding standing find_index
  standing-nil m = refl

  -- The IDs that a list does not have.
  pub has-none :
      (store : ℕ → Backend C) (be : List ℕ) (id : Text)
      → ((a : ℕ) → 1 ≤ count a be → id_of store a ≢ id)
      → has store be id ≡ false
  has-none store be id h = elim (Bool-cases (has store be id)) [
    | inr not_listed ↦ not_listed
    | inl listed ↦ let (a, among, e) = has-mem store be id listed in absurd (h a among e)
  ]
