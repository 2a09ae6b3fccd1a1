-- ===== src/Middleware/RateLimiter/Window.antt =====
-- How many requests of one address a window lets through.
use dift_backend_auth.Base.{
  ℕ, suc, ◌+◌, ◌-◌, ◌≤◌, ◌≡◌, ap, Bool, true, false, none, some, List, [], ◌∷◌, ltb, if◌then◌else◌,
  Text, text_eq, arith, min, length, Option-cases, Bool-cases, inl, inr,
}
use dift_backend_auth.Store
use dift_backend_auth.Middleware.RateLimiter.{
  RateLimiter, RateLimitEntry, limit_request, is_older, write,
}

-- The requests of one address that go on, out of those at the given times.
unfoldable pub passed : RateLimiter → Text → List ℕ → ℕ
passed rl ip [] = 0
passed rl ip (t ∷ ts) =
    let (rl', goes_on) = limit_request rl ip t in
    let rest = passed rl' ip ts in if goes_on then suc rest else rest

-- Every time lies at most a window after the start.
abbrev pub AreInWindow : ℕ → ℕ → List ℕ → Type 0
AreInWindow start window [] = Unit {0}
AreInWindow start window (t ∷ ts) = (t ≤ start + window) × AreInWindow start window ts

limit_request-counted :
    (rl : RateLimiter) (ip : Text) (t : ℕ) (e : RateLimitEntry)
    → Store.get ip rl.clients ≡ some e
    → t ≤ e.window_start + rl.window
    → limit_request rl ip t ≡ (
      write rl ip (suc e.count) e.window_start,
      if ltb rl.limit (suc e.count) then false else true,
    )
unfolding limit_request
limit_request-counted rl ip t e found h = ground arith

passed-counted :
    (ts : List ℕ) (rl : RateLimiter) (ip : Text) (e : RateLimitEntry)
    → Store.get ip rl.clients ≡ some e
    → AreInWindow e.window_start rl.window ts
    → passed rl ip ts ≡ min (length ts) (rl.limit - e.count)
unfolding passed
passed-counted [] rl ip e found h = omega arith
passed-counted (t ∷ ts) rl ip e found h =
    let e' : RateLimitEntry = record { count = suc e.count; window_start = e.window_start } in
    let rest =
      passed-counted ts (write rl ip (suc e.count) e.window_start) ip e'
        (Store.get-put_self ip e' rl.clients) h.1 in
    rw (limit_request-counted rl ip t e found h.0) (ground arith)

-- Whether the next request of the address starts a window: it has no entry, or an old one.
abbrev pub starts_window : RateLimiter → Text → ℕ → Bool
starts_window rl ip t = elim (Store.get ip rl.clients) [
  | none ↦ true
  | some e ↦ is_older rl.window e t
]

limit_request-started :
    (rl : RateLimiter) (ip : Text) (t : ℕ)
    → starts_window rl ip t ≡ true
    → limit_request rl ip t ≡ (write rl ip 1 t, true)
unfolding limit_request
limit_request-started rl ip t h = ground arith

-- Of the requests of one address from the one that starts a window to the window's end, the limiter
-- lets through the first as many as its limit says, or all if they are fewer; the request that
-- starts the window always goes on.
pub passed-window :
    (rl : RateLimiter) (ip : Text) (t : ℕ) (ts : List ℕ)
    → starts_window rl ip t ≡ true
    → AreInWindow t rl.window ts
    → passed rl ip (t ∷ ts) ≡ suc (min (length ts) (rl.limit - 1))
unfolding passed
passed-window rl ip t ts fresh h =
    let e : RateLimitEntry = record { count = 1; window_start = t } in
    rw (limit_request-started rl ip t fresh)
      (ap suc (passed-counted ts (write rl ip 1 t) ip e (Store.get-put_self ip e rl.clients) h))

-- A request of one address leaves the entries of the others as they are.
pub limit_request-others :
    (rl : RateLimiter) (ip other : Text) (t : ℕ)
    → text_eq ip other ≡ false
    → Store.get other (limit_request rl ip t).0.clients ≡ Store.get other rl.clients
unfolding limit_request
limit_request-others rl ip other t ne = elim (Option-cases (Store.get ip rl.clients)) [
  | inl absent ↦ rw (limit_request, absent) (Store.get-put_ne ip other _ rl.clients ne)
  | inr (e, found) ↦ elim (Bool-cases (is_older rl.window e t)) [
    | inl old ↦ rw (limit_request, found, old) (Store.get-put_ne ip other _ rl.clients ne)
    | inr young ↦ rw (limit_request, found, young) (Store.get-put_ne ip other _ rl.clients ne)
  ]
]
