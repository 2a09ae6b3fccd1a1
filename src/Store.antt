-- ===== src/Store.antt =====
-- A Go `map[string]*T` as an association list. The keys keep the order in which they came, which
-- stands for the order of iteration that Go leaves open.
pub mod Keyed
pub mod Unique
use dift_backend_auth.Base.{
  ◌≡◌, refl, Bool, true, false, Option, none, some, List, [], ◌∷◌, arith, if◌then◌else◌, Text,
  text_eq, text_eq_iff, Option-cases, inl, inr, text_eq_refl,
}

abbrev pub Store {ℓ} : Type ℓ → Type ℓ
Store V = List (Text × V)

module _ {ℓ} {V : Type ℓ} where
  -- `v, ok := m[k]`
  unfoldable pub get : Text → Store V → Option V
  get k [] = none
  get k ((j, v) ∷ m) = if text_eq j k then some v else get k m

  -- `m[k] = v`
  unfoldable pub put : Text → V → Store V → Store V
  put k v [] = (k, v) ∷ []
  put k v ((j, w) ∷ m) = if text_eq j k then (j, v) ∷ m else (j, w) ∷ put k v m

  -- The loop that writes to each value in turn.
  unfoldable pub update_all : (V → V) → Store V → Store V
  update_all f [] = []
  update_all f ((j, w) ∷ m) = (j, f w) ∷ update_all f m

  -- The loop that deletes the values of a kind.
  unfoldable pub delete_where : (V → Bool) → Store V → Store V
  delete_where p [] = []
  delete_where p ((j, w) ∷ m) = if p w then delete_where p m else (j, w) ∷ delete_where p m

  -- The values that pass a test, in order.
  unfoldable pub select : (V → Bool) → Store V → List V
  select p [] = []
  select p ((j, w) ∷ m) = if p w then w ∷ select p m else select p m

  -- The first value that passes a test.
  unfoldable pub find : (V → Bool) → Store V → Option V
  find p [] = none
  find p ((j, w) ∷ m) = if p w then some w else find p m

  pub get-put :
      (k j : Text) (v : V) (m : Store V)
      → get j (put k v m) ≡ (if text_eq k j then some v else get j m)
  unfolding get put
  get-put k j v [] = refl
  get-put k j v ((i, w) ∷ m) =
      ground (arith, text_eq_iff k j, text_eq_iff i k, text_eq_iff i j, get-put k j v m)

  pub get-put_self : (k : Text) (v : V) (m : Store V) → get k (put k v m) ≡ some v
  get-put_self k v m = simp (get-put, text_eq_refl)

  pub get-put_ne :
      (k j : Text) (v : V) (m : Store V) → text_eq k j ≡ false → get j (put k v m) ≡ get j m
  get-put_ne k j v m h = rw (get-put, h)

  pub get-update_all :
      (k : Text) (f : V → V) (m : Store V)
      → get k (update_all f m) ≡ elim (get k m) [ none ↦ none | some v ↦ some (f v) ]
  unfolding get update_all
  get-update_all k f [] = refl
  get-update_all k f ((j, w) ∷ m) = ground (arith, get-update_all k f m)

  pub find_holds : (p : V → Bool) (m : Store V) {v : V} → find p m ≡ some v → p v ≡ true
  unfolding find
  find_holds p [] h = cc
  find_holds p ((j, w) ∷ m) {v} h = ground (arith, find_holds p m {v = v})

  -- A value after the loop comes from one before it.
  pub get-update_all-some :
      (k : Text) (f : V → V) (m : Store V) {v : V}
      → get k (update_all f m) ≡ some v
      → (u : V) × (get k m ≡ some u) × (f u ≡ v)
  get-update_all-some k f m {v} h = elim (Option-cases (get k m)) [
    | inl absent ↦ absurd (ground (arith, get-update_all k f m))
    | inr (u, found) ↦ (u, found, ground (arith, get-update_all k f m))
  ]
