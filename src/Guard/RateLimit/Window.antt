-- ===== src/Guard/RateLimit/Window.antt =====
-- How many requests a window of `memoryLimiter` lets through.
use mathlib.Core.Logic.{if_pos, if_neg}
use ecommerce_ops_agent.Base.{
  ap, subst, ◌∙◌, ℕ, ◌+◌, ◌-◌, ◌≤◌, min, ◌≡◌, refl, String, List, [], ◌∷◌, All, Bool, true, false,
  some, if◌then◌else◌, ◌==◌, string_eq, arith,
}
use ecommerce_ops_agent.Base.Int.{ℤ, pos, negsuc, pos_part, leb_ℤ}
use ecommerce_ops_agent.Base.Dict.{lookup, lookup-insert_self, lookup-insert_ne}
use ecommerce_ops_agent.Guard.RateLimit.{MemoryLimiter, WinCount, allow, window_at}

abbrev pub one_if : Bool → ℕ
one_if true = 1
one_if false = 0

-- The requests under a key in a sequence of requests, and those of them that are let through.
pub requests : String → List (ℕ × String) → ℕ
requests key [] = 0
requests key ((now, k) ∷ rs) = (if key == k then 1 else 0) + requests key rs

pub granted : String → MemoryLimiter → List (ℕ × String) → ℕ
granted key l [] = 0
granted key l ((now, k) ∷ rs) =
    (if key == k then one_if (allow now k l).1 else 0) + granted key (allow now k l).0 rs

abbrev pub quota : ℤ → ℕ
quota limit = pos_part limit

abbrev pub NotAfter : ℕ → ℕ × String → Type 0
NotAfter end (now, k) = now ≤ end

within : (n : ℕ) (limit : ℤ) → one_if (leb_ℤ (pos (n + 1)) limit) ≡ min 1 (quota limit - n)
within n (pos l) = ground arith
within n (negsuc l) = ground arith

allow_same :
    (now : ℕ) (key : String) (l : MemoryLimiter) (c : WinCount)
    → window_at now l.window (lookup key l.counts) ≡ c
    → (lookup key (allow now key l).0.counts ≡ some (record c { n = c.n + 1 }))
      × ((allow now key l).1 ≡ leb_ℤ (pos (c.n + 1)) l.limit)
unfolding allow
allow_same now key l c e = (rw e (lookup-insert_self key (record c { n = c.n + 1 }) l.counts), rw e)

allow_other :
    (now : ℕ) (key k : String) (l : MemoryLimiter)
    → ¬ (key ≡ k)
    → lookup key (allow now k l).0.counts ≡ lookup key l.counts
unfolding allow
allow_other now key k l other = lookup-insert_ne key k _ l.counts other

allow-limit : (now : ℕ) (k : String) (l : MemoryLimiter) → (allow now k l).0.limit ≡ l.limit
unfolding allow
allow-limit now k l = refl

still_open : (now window : ℕ) (c : WinCount) → now ≤ c.reset_at → window_at now window (some c) ≡ c
unfolding window_at
still_open now window c h = ground arith

same_key : (key : String) → key ≡ key
same_key key = refl

counted_step :
    (now : ℕ) (key : String) (l : MemoryLimiter) (c : WinCount) (rs : List (ℕ × String))
    → window_at now l.window (lookup key l.counts) ≡ c
    → granted key (allow now key l).0 rs ≡ min (quota l.limit - (c.n + 1)) (requests key rs)
    → granted key l ((now, key) ∷ rs) ≡ min (quota l.limit - c.n) (requests key ((now, key) ∷ rs))
unfolding granted requests
counted_step now key l c rs here rest =
    rw (if_pos _ (same_key key))
      (omega (arith, ap one_if (allow_same now key l c here).1, within c.n l.limit, rest))

-- In a window that has counted n requests, and does not end before the last of the requests that
-- follow: of those under its key, as many are let through as there are, but no more than the limit
-- less n.
pub granted_in_window :
    (key : String) (l : MemoryLimiter) (c : WinCount) (rs : List (ℕ × String))
    → lookup key l.counts ≡ some c
    → All (NotAfter c.reset_at) rs
    → granted key l rs ≡ min (quota l.limit - c.n) (requests key rs)
unfolding granted requests
granted_in_window key l c [] found h = omega arith
granted_in_window key l c ((now, k) ∷ rs) found h = elim (string_eq.dec key k) [
  | yes same ↦
      let here : window_at now l.window (lookup key l.counts) ≡ c =
        ap (window_at now l.window) found ∙ still_open now l.window c h.0 in
      subst
        (λ j.
          granted key l ((now, j) ∷ rs) ≡ min (quota l.limit - c.n) (requests key ((now, j) ∷ rs)))
        same
        (counted_step now key l c rs here (
          rw (allow-limit now key l) at (
            granted_in_window key (allow now key l).0 (record c { n = c.n + 1 }) rs
              (allow_same now key l c here).0 h.1)))
  | no other ↦ rw (if_neg _ other) (
      omega (
        arith,
        granted_in_window key (allow now k l).0 c rs (allow_other now key k l other ∙ found) h.1,
        ap quota (allow-limit now k l),
      ))
]

-- From the request that opens a window for its key, where there is none or it has ended, and as long
-- as the window lasts: of the requests under that key, whatever others come between them, the first
-- ones up to the limit are let through and no more, so none is refused before the limit is reached.
pub window_bound :
    (now : ℕ) (key : String) (l : MemoryLimiter) (rs : List (ℕ × String))
    → window_at now l.window (lookup key l.counts) ≡ record { n = 0; reset_at = now + l.window }
    → All (NotAfter (now + l.window)) rs
    → granted key l ((now, key) ∷ rs) ≡ min (quota l.limit) (requests key ((now, key) ∷ rs))
window_bound now key l rs opens h = omega (
  arith,
  counted_step now key l (record { n = 0; reset_at = now + l.window }) rs opens
      (rw (allow-limit now key l) at (
        granted_in_window key (allow now key l).0 (record { n = 1; reset_at = now + l.window }) rs
          (allow_same now key l (record { n = 0; reset_at = now + l.window }) opens).0 h)),
)
