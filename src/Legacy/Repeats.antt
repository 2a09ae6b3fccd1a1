-- ===== src/Legacy/Repeats.antt =====
-- What the loop over the characters finds.
use dift_backend_auth.Base.{
  ℕ, zero, suc, ◌≤◌, ◌<◌, ◌≡◌, refl, sym, ap, ◌∙◌, Bool, true, false, ◌||◌, ◌==◌, ==_iff, ltb, [],
  ◌∷◌, ◌++◌, Text, arith, Bool-cases, inl, inr,
}
use dift_backend_auth.Base.Ascii.{starts_with}
use dift_backend_auth.Legacy.Passwords.{repeating_from, has_repeating_chars}

-- A character n times.
abbrev run : ℕ → ℕ → Text
run zero c = []
run (suc n) c = c ∷ run n c

-- Somewhere a character comes n times in a row.
unfoldable has_run : ℕ → Text → Bool
has_run n [] = false
has_run n (c ∷ cs) = let rest = has_run n cs in starts_with (run n c) (c ∷ cs) || rest

starts_with-run : (n : ℕ) (c : ℕ) (cs : Text) → starts_with (run n c) (run n c ++ cs) ≡ true
unfolding starts_with
starts_with-run zero c [] = refl
starts_with-run zero c (d ∷ cs) = refl
starts_with-run (suc n) c cs = ground (arith, starts_with-run n c cs)

starts_with-broken :
    (n k : ℕ) (c d : ℕ) (cs : Text)
    → k < n
    → (c == d) ≡ false
    → starts_with (run n c) (run k c ++ d ∷ cs) ≡ false
unfolding starts_with
starts_with-broken zero k c d cs h ne = absurd (omega arith)
starts_with-broken (suc n) zero c d cs h ne = ground arith
starts_with-broken (suc n) (suc k) c d cs h ne =
    ground (arith, starts_with-broken n k c d cs (omega arith) ne)

-- A run that a different character breaks off before its end does not count.
has_run-broken :
    (n k : ℕ) (c d : ℕ) (cs : Text)
    → k < n
    → (c == d) ≡ false
    → has_run n (run k c ++ d ∷ cs) ≡ has_run n (d ∷ cs)
unfolding has_run
has_run-broken n zero c d cs h ne = refl
has_run-broken n (suc k) c d cs h ne =
    ground
      (arith, starts_with-broken n (suc k) c d cs h ne, has_run-broken n k c d cs (omega arith) ne)

run-snoc : (k : ℕ) (c : ℕ) (cs : Text) → run k c ++ c ∷ cs ≡ run (suc k) c ++ cs
run-snoc zero c cs = refl
run-snoc (suc k) c cs = ap (λ l. c ∷ l) (run-snoc k c cs)

starts_with-short : (n k : ℕ) (c : ℕ) → k < n → starts_with (run n c) (run k c ++ []) ≡ false
unfolding starts_with
starts_with-short zero k c h = absurd (omega arith)
starts_with-short (suc n) zero c h = refl
starts_with-short (suc n) (suc k) c h = ground (arith, starts_with-short n k c (omega arith))

has_run-short : (n k : ℕ) (c : ℕ) → k < n → has_run n (run k c ++ []) ≡ false
unfolding has_run
has_run-short n zero c h = refl
has_run-short n (suc k) c h =
    ground (arith, starts_with-short n (suc k) c h, has_run-short n k c (omega arith))

has_run-full : (n : ℕ) (c : ℕ) (cs : Text) → 1 ≤ n → has_run n (run n c ++ cs) ≡ true
unfolding has_run
has_run-full zero c cs h = absurd (omega arith)
has_run-full (suc n) c cs h = ground (arith, starts_with-run (suc n) c cs)

repeating_from-has_run :
    (max last count : ℕ) (cs : Text)
    → 1 ≤ count
    → count ≤ max
    → repeating_from max last count cs ≡ has_run (suc max) (run count last ++ cs)
unfolding repeating_from
repeating_from-has_run max last count [] h k =
    sym (has_run-short (suc max) count last (omega arith))
repeating_from-has_run max last count (c ∷ cs) h k = elim (Bool-cases (c == last)) [
  | inr other ↦ rw other (
      repeating_from-has_run max c 1 cs (omega arith) (omega arith)
      ∙ sym (has_run-broken (suc max) count last c cs (omega arith) (ground arith)))
  | inl same ↦
      let e : c ≡ last = (==_iff c last).0 same in
      let snoc : run count last ++ c ∷ cs ≡ run (suc count) last ++ cs =
        rw e (run-snoc count last cs) in
      elim (Bool-cases (ltb max (suc count))) [
        | inl full ↦
            let count_is : count ≡ max = ground arith in
            rw (same, full, snoc, count_is) (sym (has_run-full (suc max) last cs (omega arith)))
        | inr short ↦
            rw (same, short, snoc)
              (repeating_from-has_run max last (suc count) cs (omega arith) (ground arith))
      ]
]

-- The loop over the characters finds out whether some character comes more than max times in a row,
-- where max is at least one.
has_repeating_chars-has_run :
    (s : Text) (max : ℕ) → 1 ≤ max → has_repeating_chars s max ≡ has_run (suc max) s
unfolding has_repeating_chars has_run
has_repeating_chars-has_run [] max h = refl
has_repeating_chars-has_run (c ∷ cs) max h = repeating_from-has_run max c 1 cs (omega arith) h
