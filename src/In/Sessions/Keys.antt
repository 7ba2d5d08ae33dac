-- ===== src/In/Sessions/Keys.antt =====
-- The keys of the map of the clients in in/inc_manager.go.
use wsbalancer.Prelude.{
  ℕ, ◌≡◌, refl, Bool, true, false, List, [], ◌∷◌, Option, none, some, ◌==◌, if◌then◌else◌,
  Bool-cases, inl, inr, arith, Option-cases,
}
use mathlib.Core.Path.{subst}
use wsbalancer.In.Sessions.{Manager, find, put_key, drop_key, add_client, remove_client}

module _ {A : Type 0} where
  -- The map has a key once.
  unfoldable pub Keyed : List (ℕ × A) → Type 0
  Keyed [] = Unit
  Keyed ((a, x) ∷ xs) = (find a xs ≡ none) × Keyed xs

  none-if :
      (p : Bool) (x : A) (o : Option A)
      → (if p then some x else o) ≡ none
      → (p ≡ false) × (o ≡ none)
  none-if true x o h = absurd (ground (arith, h))
  none-if false x o h = (refl, h)

  find-put_key :
      (a b : ℕ) (x : A) (xs : List (ℕ × A))
      → (a == b) ≡ false
      → find b xs ≡ none
      → find b (put_key a x xs) ≡ none
  unfolding find put_key
  find-put_key a b x [] apart h = rw (apart) refl
  find-put_key a b x ((c, y) ∷ xs) apart h =
      let gone = none-if (c == b) y (find b xs) h in
      elim (Bool-cases (c == a)) [
        | inl e ↦ rw (e, put_key, gone.0) gone.1
        | inr e ↦ rw (e, put_key, gone.0) (find-put_key a b x xs apart gone.1)
      ]

  find-drop_key : (a b : ℕ) (xs : List (ℕ × A)) → find b xs ≡ none → find b (drop_key a xs) ≡ none
  unfolding find drop_key
  find-drop_key a b [] h = h
  find-drop_key a b ((c, y) ∷ xs) h =
      let gone = none-if (c == b) y (find b xs) h in
      elim (Bool-cases (c == a)) [
        | inl e ↦ rw (e, drop_key) gone.1
        | inr e ↦ rw (e, drop_key, gone.0) (find-drop_key a b xs gone.1)
      ]

  put_key-Keyed : (a : ℕ) (x : A) (xs : List (ℕ × A)) → Keyed xs → Keyed (put_key a x xs)
  unfolding Keyed put_key find
  put_key-Keyed a x [] h = (refl, tt)
  put_key-Keyed a x ((b, y) ∷ xs) h = elim (Bool-cases (b == a)) [
    | inl e ↦ rw (e, put_key) h
    | inr e ↦
        let apart : (a == b) ≡ false = ground (arith, e) in
        rw (e, put_key) (find-put_key a b x xs apart h.0, put_key-Keyed a x xs h.1)
  ]

  drop_key-Keyed : (a : ℕ) (xs : List (ℕ × A)) → Keyed xs → Keyed (drop_key a xs)
  unfolding Keyed drop_key
  drop_key-Keyed a [] h = h
  drop_key-Keyed a ((b, y) ∷ xs) h = elim (Bool-cases (b == a)) [
    | inl e ↦ rw (e, drop_key) h.1
    | inr e ↦ rw (e, drop_key) (find-drop_key a b xs h.0, drop_key-Keyed a xs h.1)
  ]

  pub drop_key-gone : (a : ℕ) (xs : List (ℕ × A)) → Keyed xs → find a (drop_key a xs) ≡ none
  unfolding Keyed find drop_key
  drop_key-gone a [] h = refl
  drop_key-gone a ((b, y) ∷ xs) h = elim (Bool-cases (b == a)) [
    | inl e ↦
        let it : b ≡ a = ground (arith, e) in
        rw (e, drop_key) (subst (λ c. find c xs ≡ none) it h.0)
    | inr e ↦ rw (e, drop_key, e) (drop_key-gone a xs h.1)
  ]

module _ {K B W : Type 0} where
  pub add_client-Keyed :
      (a : ℕ) (us : B) (m : Manager K B W) → Keyed m.clients → Keyed (add_client a us m).clients
  unfolding add_client
  add_client-Keyed a us m h = put_key-Keyed a us m.clients h

  pub remove_client-Keyed :
      (a : ℕ) (m : Manager K B W) → Keyed m.clients → Keyed (remove_client a m).clients
  unfolding remove_client
  remove_client-Keyed a m h = elim (Option-cases (find a m.clients)) [
    | inl e ↦ rw (remove_client, e) h
    | inr (us, e) ↦ rw (remove_client, e) (drop_key-Keyed a m.clients h)
  ]
