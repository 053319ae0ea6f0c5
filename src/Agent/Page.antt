-- ===== src/Agent/Page.antt =====
-- `sliceRange` of internal/platform/memory_store.go, and the pages cut by it.
use ecommerce_ops_agent.Base.{
  ℕ, ◌+◌, ◌-◌, ◌≤◌, ◌≡◌, List, ◌++◌, true, false, ◌&&◌, if◌then◌else◌, ltb, arith, length, take,
  drop, length-drop, take_all, drop_all, take-nil, drop-drop, take_add, Bool-cases, inl, inr, ap,
  sym, ◌∙◌, ◌<◌,
}
use ecommerce_ops_agent.Base.Int.{ℤ, pos, negsuc}

clamped_low : ℕ → ℤ → ℕ
clamped_low n (negsuc o) = 0
clamped_low n (pos o) = if ltb n o then n else o

clamped_high : ℕ → ℕ → ℤ → ℕ
clamped_high n lo (negsuc l) = n
clamped_high n lo (pos l) = if ltb 0 l && ltb (lo + l) n then lo + l else n

pub slice_range : ℕ → ℤ → ℤ → ℕ × ℕ
unfolding clamped_low clamped_high
slice_range n limit offset = let lo = clamped_low n offset in (lo, clamped_high n lo limit)

-- `all[lo:hi]`
pub page {ℓ} : {A : Type ℓ} → List A → ℤ → ℤ → List A
unfolding slice_range
page all limit offset =
    let range = slice_range (length all) limit offset in take (range.1 - range.0) (drop range.0 all)

-- For every length, limit and offset, negative ones included, the bounds are in order and within the
-- slice, so that cutting it never panics.
pub slice_range-within :
    (n : ℕ) (limit offset : ℤ)
    → ((slice_range n limit offset).0 ≤ (slice_range n limit offset).1)
      × ((slice_range n limit offset).1 ≤ n)
unfolding slice_range clamped_low clamped_high
slice_range-within n (pos l) (pos o) = (ground arith, ground arith)
slice_range-within n (pos l) (negsuc o) = (ground arith, ground arith)
slice_range-within n (negsuc l) (pos o) = (ground arith, ground arith)
slice_range-within n (negsuc l) (negsuc o) = (ground arith, ground arith)

range_beyond : (n l o : ℕ) → ltb n o ≡ true → 0 < l → slice_range n (pos l) (pos o) ≡ (n, n)
unfolding slice_range clamped_low clamped_high
range_beyond n l o h positive = ground arith

range_full :
    (n l o : ℕ)
    → ltb n o ≡ false
    → 0 < l
    → ltb (o + l) n ≡ true
    → slice_range n (pos l) (pos o) ≡ (o, o + l)
unfolding slice_range clamped_low clamped_high
range_full n l o h positive fits = ground arith

range_short :
    (n l o : ℕ) → ltb n o ≡ false → ltb (o + l) n ≡ false → slice_range n (pos l) (pos o) ≡ (o, n)
unfolding slice_range clamped_low clamped_high
range_short n l o h short = ground arith

cut {ℓ} : {A : Type ℓ} → List A → ℕ × ℕ → List A
cut all (lo, hi) = take (hi - lo) (drop lo all)

added_back : (o l : ℕ) → o + l - o ≡ l
added_back o l = omega arith

page_lem {ℓ} :
    {A : Type ℓ} (all : List A) (l o : ℕ) → 0 < l → page all (pos l) (pos o) ≡ take l (drop o all)
unfolding page cut
page_lem all l o positive = elim (Bool-cases (ltb (length all) o)) [
  | inl beyond ↦
      ap (cut all) (range_beyond (length all) l o beyond positive)
      ∙ ap (take (length all - length all)) (drop_all (length all) all (omega arith))
      ∙ take-nil (length all - length all)
      ∙ sym (ap (take l) (drop_all o all (ground arith)) ∙ take-nil l)
  | inr inside ↦ elim (Bool-cases (ltb (o + l) (length all))) [
    | inl full ↦
        ap (cut all) (range_full (length all) l o inside positive full)
        ∙ ap (λ k. take k (drop o all)) (added_back o l)
    | inr short ↦
        ap (cut all) (range_short (length all) l o inside short)
        ∙ take_all (length all - o) (drop o all) (omega (arith, length-drop o all))
        ∙ sym (take_all l (drop o all) (ground (arith, length-drop o all)))
  ]
]

-- Two pages with positive limits, the second beginning where the first may end, are together the one
-- page of both limits: paging through a list skips no element and shows none twice.
pub page-append {ℓ} :
    {A : Type ℓ} (all : List A) (l m o : ℕ)
    → 0 < l
    → 0 < m
    → page all (pos l) (pos o) ++ page all (pos m) (pos (o + l)) ≡ page all (pos (l + m)) (pos o)
page-append all l m o some_l some_m =
    rw
      (page_lem all l o some_l, page_lem all m (o + l) some_m, page_lem all (l + m) o (omega arith))
      (ap (λ r. take l (drop o all) ++ take m r) (sym (drop-drop o l all))
        ∙ take_add l m (drop o all))
