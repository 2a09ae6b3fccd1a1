-- ===== src/Store/Keyed.antt =====
-- Stores in which every value lies under the key that it holds itself.
use dift_backend_auth.Base.{
  ◌≡◌, sym, ap, ◌∙◌, some, [], Text, text_eq, text_eq_iff, Bool-cases, inl, inr, arith,
}
use dift_backend_auth.Store.{Store, get, put, update_all, get-put, get-put_ne, get-update_all-some}

abbrev pub IsKeyed {ℓ} : {V : Type ℓ} → (V → Text) → Store V → Type ℓ
IsKeyed {V} key m = (k : Text) (v : V) → get k m ≡ some v → key v ≡ k

module _ {ℓ} {V : Type ℓ} (key : V → Text) where
  pub empty-IsKeyed : IsKeyed key []
  unfolding get
  empty-IsKeyed = λ k v h. cc

  pub put-IsKeyed : (m : Store V) (v : V) → IsKeyed key m → IsKeyed key (put (key v) v m)
  put-IsKeyed m v keyed = λ k u h. elim (Bool-cases (text_eq (key v) k)) [
    | inl same ↦
        let e : v ≡ u = ground (arith, get-put (key v) k v m) in
        ap key (sym e) ∙ (text_eq_iff (key v) k).0 same
    | inr other ↦ keyed k u (sym (get-put_ne (key v) k v m other) ∙ h)
  ]

  pub update_all-IsKeyed :
      (f : V → V) (m : Store V)
      → ((v : V) → key (f v) ≡ key v)
      → IsKeyed key m
      → IsKeyed key (update_all f m)
  update_all-IsKeyed f m keeps keyed = λ k u h.
      let (v, found, e) = get-update_all-some k f m h in ap key (sym e) ∙ keeps v ∙ keyed k v found
