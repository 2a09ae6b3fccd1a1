-- ===== src/Store/Unique.antt =====
-- Stores with one entry for each key.
use dift_backend_auth.Base.{
  ◌≡◌, refl, sym, ap, ◌∙◌, Bool, false, none, some, [], ◌∷◌, Text, text_eq, text_eq_iff, arith,
  Bool-cases, inl, inr, if◌then◌else◌,
}
use dift_backend_auth.Store.{Store, get, put, delete_where, get-put_ne}

abbrev pub IsUnique {ℓ} : {V : Type ℓ} → Store V → Type ℓ
IsUnique [] = Unit
IsUnique ((k, v) ∷ m) = (get k m ≡ none) × IsUnique m

module _ {ℓ} {V : Type ℓ} where
  pub get-delete_where-none :
      (p : V → Bool) (k : Text) (m : Store V) → get k m ≡ none → get k (delete_where p m) ≡ none
  unfolding get delete_where
  get-delete_where-none p k [] h = refl
  get-delete_where-none p k ((j, v) ∷ m) h = ground (arith, get-delete_where-none p k m)

  -- The value of a key is gone if it is of the kind that was deleted, and as it was otherwise.
  pub get-delete_where :
      (p : V → Bool) (k : Text) (m : Store V) {v : V}
      → IsUnique m
      → get k m ≡ some v
      → get k (delete_where p m) ≡ (if p v then none else some v)
  unfolding get delete_where
  get-delete_where p k [] {v} u h = absurd (cc h)
  get-delete_where p k ((j, w) ∷ m) {v} u h = elim (Bool-cases (text_eq j k)) [
    | inl same ↦
        let e : w ≡ v = ground arith in
        let id : j ≡ k = (text_eq_iff j k).0 same in
        let gone : get k (delete_where p m) ≡ none =
          get-delete_where-none p k m (ap (λ i. get i m) (sym id) ∙ u.0) in
        rw (← e) (ground (arith, gone))
    | inr other ↦
        let there : get k m ≡ some v = ground arith in
        ground (arith, get-delete_where p k m {v = v} u.1 there)
  ]

  pub put-IsUnique : (k : Text) (v : V) (m : Store V) → IsUnique m → IsUnique (put k v m)
  unfolding get put
  put-IsUnique k v [] u = (refl, tt)
  put-IsUnique k v ((j, w) ∷ m) u = elim (Bool-cases (text_eq j k)) [
    | inl same ↦ rw same u
    | inr other ↦
        let ne : text_eq k j ≡ false = ground (arith, text_eq_iff j k, text_eq_iff k j) in
        rw other (get-put_ne k j v m ne ∙ u.0, put-IsUnique k v m u.1)
  ]
