-- ===== src/KnowledgeBase/Chunk/Coverage.antt =====
-- Chunks without their overlaps are the paragraphs again.
use mathlib.Core.List.{append-nil, append_assoc}
use ecommerce_ops_agent.Base.{
  ℕ, zero, suc, ◌-◌, ◌≤◌, ◌<◌, ◌≡◌, refl, sym, ap, ◌∙◌, ◌⊎◌, inl, inr, List, [], ◌∷◌, ◌++◌, true,
  arith, Bool-cases, ltb, length, take, drop,
}
use ecommerce_ops_agent.KnowledgeBase.Runes.{Text, newline, is_empty}
use ecommerce_ops_agent.KnowledgeBase.Chunk.{
  Building, tail_runes, cut_runes, hard_cut, close, closes, add, separator, add_paragraph,
  add_paragraphs, finish, chunk_paragraphs,
}
use ecommerce_ops_agent.KnowledgeBase.Chunk.Bounds.{length-tail_runes}

-- Each chunk without the tail of the one before it, one after the other.
unfoldable pub uncover : ℕ → Text → List Text → Text
uncover overlap prev [] = []
uncover overlap prev (c ∷ cs) = drop (length (tail_runes prev overlap)) c ++ uncover overlap c cs

-- Each chunk begins with the tail of the one before it.
unfoldable pub Linked : ℕ → Text → List Text → Type 0
Linked overlap prev [] = Unit
Linked overlap prev (c ∷ cs) =
    ((fresh : Text) × (c ≡ tail_runes prev overlap ++ fresh)) × Linked overlap c cs

abbrev last_or : Text → List Text → Text
last_or prev [] = prev
last_or prev (c ∷ cs) = last_or c cs

-- The paragraphs in their order, each behind a newline or nothing, continue `t` to `u`.
abbrev pub Follows : Text → List Text → Text → Type 0
Follows t [] u = t ≡ u
Follows t (p ∷ ps) u =
    (sep : Text) × ((sep ≡ []) ⊎ (sep ≡ newline ∷ [])) × Follows (t ++ (sep ++ p)) ps u

uncover-append :
    (overlap : ℕ) (prev : Text) (cs : List Text) (c : Text)
    → uncover overlap prev (cs ++ c ∷ [])
      ≡ uncover overlap prev cs ++ drop (length (tail_runes (last_or prev cs) overlap)) c
unfolding uncover
uncover-append overlap prev [] c = append-nil _
uncover-append overlap prev (d ∷ cs) c = rw (uncover-append overlap d cs c) (
    sym (
      append_assoc (drop (length (tail_runes prev overlap)) d) (uncover overlap d cs)
        (drop (length (tail_runes (last_or d cs) overlap)) c)))

Linked-append :
    (overlap : ℕ) (prev : Text) (cs : List Text) (c fresh : Text)
    → Linked overlap prev cs
    → c ≡ tail_runes (last_or prev cs) overlap ++ fresh
    → Linked overlap prev (cs ++ c ∷ [])
unfolding Linked
Linked-append overlap prev [] c fresh h e = ((fresh, e), tt)
Linked-append overlap prev (d ∷ cs) c fresh (begins, h) e =
    (begins, Linked-append overlap d cs c fresh h e)

take-append :
    (n : ℕ) (xs ys : Text) → length xs ≤ n → take n (xs ++ ys) ≡ xs ++ take (n - length xs) ys
take-append n [] ys h = ap (λ m. take m ys) (omega arith)
take-append zero (x ∷ xs) ys h = absurd (omega (arith, h))
take-append (suc n) (x ∷ xs) ys h =
    ap (◌∷◌ x) (take-append n xs ys (omega (arith, h)))
    ∙ ap (λ m. x ∷ (xs ++ take m ys)) (omega arith)

last_or-append : (prev : Text) (cs : List Text) (c : Text) → last_or prev (cs ++ c ∷ []) ≡ c
last_or-append prev [] c = refl
last_or-append prev (d ∷ cs) c = last_or-append d cs c

pub drop-append : (xs ys : Text) → drop (length xs) (xs ++ ys) ≡ ys
drop-append [] ys = refl
drop-append (x ∷ xs) ys = drop-append xs ys

drop-take : (k n : ℕ) (xs : Text) → k ≤ n → drop k (take n xs) ++ drop n xs ≡ drop k xs
drop-take zero zero xs h = refl
drop-take zero (suc n) [] h = refl
drop-take zero (suc n) (x ∷ xs) h = ap (◌∷◌ x) (drop-take zero n xs (omega arith))
drop-take (suc k) zero xs h = absurd (omega arith)
drop-take (suc k) (suc n) [] h = refl
drop-take (suc k) (suc n) (x ∷ xs) h = drop-take k n xs (omega arith)

drop_empty : (k : ℕ) (s : Text) → is_empty s ≡ true → drop k s ≡ []
drop_empty zero [] h = refl
drop_empty (suc k) [] h = refl
drop_empty zero (_ ∷ _) h = cc
drop_empty (suc k) (_ ∷ _) h = cc

nothing_overlaps : (overlap : ℕ) → [] ≡ tail_runes [] overlap ++ []
unfolding tail_runes
nothing_overlaps overlap = sym (append-nil _ ∙ drop_empty (0 - overlap) [] refl)

-- The builder holds the overlap and what is new since the last chunk.
record Covers (overlap : ℕ) (b : Building) (t : Text) : Type 0 where
  fresh : Text
  split : b.cur ≡ tail_runes (last_or [] b.chunks) overlap ++ fresh
  so_far : uncover overlap [] b.chunks ++ fresh ≡ t
  linked : Linked overlap [] b.chunks

dropped :
    (overlap : ℕ) (b : Building) (t : Text) (h : Covers overlap b t)
    → drop (length (tail_runes (last_or [] b.chunks) overlap)) b.cur ≡ h.fresh
dropped overlap b t h =
    ap (drop (length (tail_runes (last_or [] b.chunks) overlap))) h.split
    ∙ drop-append (tail_runes (last_or [] b.chunks) overlap) h.fresh

close-Covers :
    (size overlap : ℕ) (p : Text) (b : Building) (t : Text)
    → Covers overlap b t
    → Covers overlap (close size overlap p b) t
unfolding close
close-Covers size overlap p b t h = elim (Bool-cases (closes size p b)) [
  | inr e ↦ rw e h
  | inl e ↦ rw e (record {
    fresh = [];
    split = rw (last_or-append [] b.chunks b.cur) (sym (append-nil _));
    so_far =
        append-nil _
        ∙ uncover-append overlap [] b.chunks b.cur
        ∙ ap (◌++◌ (uncover overlap [] b.chunks)) (dropped overlap b t h)
        ∙ h.so_far;
    linked = Linked-append overlap [] b.chunks b.cur h.fresh h.linked h.split;
  })
]

add-Covers :
    (overlap : ℕ) (p : Text) (b : Building) (t : Text)
    → Covers overlap b t
    → Covers overlap (add p b) (t ++ (separator b.cur ++ p))
unfolding add
add-Covers overlap p b t h =
    let more = separator b.cur ++ p in
    record {
      fresh = h.fresh ++ more;
      split =
          ap (λ c. c ++ more) h.split
          ∙ append_assoc (tail_runes (last_or [] b.chunks) overlap) h.fresh more;
      so_far =
          sym (append_assoc (uncover overlap [] b.chunks) h.fresh more)
          ∙ ap (λ c. c ++ more) h.so_far;
      linked = h.linked;
    }

separator_cases : (cur : Text) → (separator cur ≡ []) ⊎ (separator cur ≡ newline ∷ [])
unfolding separator
separator_cases [] = inl refl
separator_cases (_ ∷ _) = inr refl

module _ (size overlap : ℕ) (below : overlap < size) where
  cut-Covers :
      (b : Building) (t : Text)
      → Covers overlap b t
      → Covers overlap
          (record {
            chunks = b.chunks ++ cut_runes b.cur size ∷ [];
            cur = tail_runes (cut_runes b.cur size) overlap ++ drop size b.cur;
          })
          t
  cut-Covers b t h =
      let k = length (tail_runes (last_or [] b.chunks) overlap) in
      record {
        fresh = drop size b.cur;
        split =
            ap (λ l. tail_runes l overlap ++ drop size b.cur)
              (sym (last_or-append [] b.chunks (cut_runes b.cur size)));
        so_far =
            ap (λ l. l ++ drop size b.cur)
              (uncover-append overlap [] b.chunks (cut_runes b.cur size))
            ∙ append_assoc (uncover overlap [] b.chunks) (drop k (cut_runes b.cur size))
                (drop size b.cur)
            ∙ ap (◌++◌ (uncover overlap [] b.chunks)) (
                drop-take k size b.cur
                  (omega (arith, length-tail_runes (last_or [] b.chunks) overlap))
                ∙ dropped overlap b t h)
            ∙ h.so_far;
        linked =
            Linked-append overlap [] b.chunks (cut_runes b.cur size)
              (take (size - length (tail_runes (last_or [] b.chunks) overlap)) h.fresh) h.linked
              (ap (take size) h.split
                ∙ take-append size (tail_runes (last_or [] b.chunks) overlap) h.fresh
                    (omega (arith, length-tail_runes (last_or [] b.chunks) overlap)));
      }

  hard_cut-Covers :
      (fuel : ℕ) (b : Building) (t : Text)
      → Covers overlap b t
      → Covers overlap (hard_cut fuel size overlap b) t
  unfolding hard_cut
  hard_cut-Covers zero b t h = h
  hard_cut-Covers (suc fuel) b t h = elim (Bool-cases (ltb size (length b.cur))) [
    | inr e ↦ rw e h
    | inl e ↦ rw e (hard_cut-Covers fuel _ t (cut-Covers b t h))
  ]

  add_paragraph-Covers :
      (p : Text) (b : Building) (t : Text)
      → Covers overlap b t
      → Covers overlap
          (add_paragraph size overlap p b)
          (t ++ (separator (close size overlap p b).cur ++ p))
  unfolding add_paragraph
  add_paragraph-Covers p b t h =
      hard_cut-Covers _ _ _ (add-Covers overlap p _ t (close-Covers size overlap p b t h))

  finish-uncover :
      (b : Building) (t : Text) → Covers overlap b t → t ≡ uncover overlap [] (finish b)
  unfolding finish
  finish-uncover b t h = elim (Bool-cases (is_empty b.cur)) [
    | inl e ↦ rw e (
        sym h.so_far
        ∙ ap (◌++◌ (uncover overlap [] b.chunks)) (
            sym (dropped overlap b t h)
            ∙ drop_empty (length (tail_runes (last_or [] b.chunks) overlap)) b.cur e)
        ∙ append-nil (uncover overlap [] b.chunks))
    | inr e ↦ rw e (
        sym (
          uncover-append overlap [] b.chunks b.cur
          ∙ ap (◌++◌ (uncover overlap [] b.chunks)) (dropped overlap b t h)
          ∙ h.so_far))
  ]

  add_paragraphs-Follows :
      (ps : List Text) (b : Building) (t : Text)
      → Covers overlap b t
      → Follows t ps (uncover overlap [] (finish (add_paragraphs size overlap ps b)))
  unfolding add_paragraphs
  add_paragraphs-Follows [] b t h = finish-uncover b t h
  add_paragraphs-Follows (p ∷ ps) b t h = (
    separator (close size overlap p b).cur,
    separator_cases _,
    add_paragraphs-Follows ps _ _ (add_paragraph-Covers p b t h),
  )

  finish-Linked : (b : Building) (t : Text) → Covers overlap b t → Linked overlap [] (finish b)
  unfolding finish
  finish-Linked b t h = elim (Bool-cases (is_empty b.cur)) [
    | inl e ↦ rw e h.linked
    | inr e ↦ rw e (Linked-append overlap [] b.chunks b.cur h.fresh h.linked h.split)
  ]

  add_paragraphs-Linked :
      (ps : List Text) (b : Building) (t : Text)
      → Covers overlap b t
      → Linked overlap [] (finish (add_paragraphs size overlap ps b))
  unfolding add_paragraphs
  add_paragraphs-Linked [] b t h = finish-Linked b t h
  add_paragraphs-Linked (p ∷ ps) b t h = add_paragraphs-Linked ps _ _ (add_paragraph-Covers p b t h)

  pub chunk_paragraphs_lem :
      (ps : List Text)
      → Linked overlap [] (chunk_paragraphs size overlap ps)
        × Follows [] ps (uncover overlap [] (chunk_paragraphs size overlap ps))
  unfolding chunk_paragraphs uncover Linked
  chunk_paragraphs_lem ps =
      let nothing : Covers overlap (record { chunks = []; cur = [] }) [] = record {
        fresh = [];
        split = nothing_overlaps overlap;
        so_far = refl;
        linked = tt;
      } in
      (
        add_paragraphs-Linked ps (record { chunks = []; cur = [] }) [] nothing,
        add_paragraphs-Follows ps (record { chunks = []; cur = [] }) [] nothing,
      )
