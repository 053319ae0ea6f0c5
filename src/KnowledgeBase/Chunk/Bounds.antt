-- ===== src/KnowledgeBase/Chunk/Bounds.antt =====
-- How long the chunks of internal/platform/kb/chunk.go are, and that its inner loop ends.
use ecommerce_ops_agent.Base.{
  ℕ, zero, suc, ◌+◌, ◌-◌, ◌≤◌, ◌<◌, ◌≡◌, List, [], ◌∷◌, ◌++◌, All, false, inl, inr, arith,
  Bool-cases, ltb, length, drop, length-append, length-take, length-drop,
}
use ecommerce_ops_agent.Base.Int.{ℤ, pos, negsuc}
use ecommerce_ops_agent.KnowledgeBase.Runes.{Text, is_empty, trim_space}
use ecommerce_ops_agent.KnowledgeBase.Chunk.{
  Building, tail_runes, cut_runes, hard_cut, closes, close, add, add_paragraph, add_paragraphs,
  finish, chunk_paragraphs, chunk_text, effective_size, effective_overlap, split_paragraphs,
}

-- A chunk that may be stored: not empty, and within the size.
abbrev pub Fits : ℕ → Text → Type 0
Fits size c = (0 < length c) × (length c ≤ size)

pub All-append {ℓ κ} :
    {A : Type ℓ} (P : A → Type κ) (xs ys : List A) → All P xs → All P ys → All P (xs ++ ys)
All-append P [] ys h k = k
All-append P (x ∷ xs) ys h k = (h.0, All-append P xs ys h.1 k)

pub length-tail_runes : (s : Text) (n : ℕ) → length (tail_runes s n) + (length s - n) ≡ length s
unfolding tail_runes
length-tail_runes s n = omega (arith, length-drop (length s - n) s)

nonempty : (s : Text) → is_empty s ≡ false → 0 < length s
nonempty [] h = cc
nonempty (_ ∷ _) h = omega arith

module _ (size overlap : ℕ) (positive : 0 < size) (below : overlap < size) where
  abbrev AllFit : List Text → Type 0
  AllFit = All (Fits size)

  shorter :
      (cur : Text)
      → size < length cur
      → length (tail_runes (cut_runes cur size) overlap ++ drop size cur) < length cur
  shorter cur long = omega (
    arith,
    length-append (tail_runes (cut_runes cur size) overlap) (drop size cur),
    length-tail_runes (cut_runes cur size) overlap,
    length-take size cur,
    length-drop size cur,
  )

  hard_cut-fits :
      (fuel : ℕ) (b : Building)
      → length b.cur ≤ fuel
      → AllFit b.chunks
      → AllFit (hard_cut fuel size overlap b).chunks
        × (length (hard_cut fuel size overlap b).cur ≤ size)
  unfolding hard_cut
  hard_cut-fits zero b short h = (h, omega arith)
  hard_cut-fits (suc fuel) b short h = elim (Bool-cases (ltb size (length b.cur))) [
    | inr stop ↦ rw stop (h, ground arith)
    | inl long ↦ rw long (
        hard_cut-fits fuel
          (record {
            chunks = b.chunks ++ cut_runes b.cur size ∷ [];
            cur = tail_runes (cut_runes b.cur size) overlap ++ drop size b.cur;
          })
          (omega (arith, shorter b.cur (ground arith)))
          (All-append (Fits size) b.chunks (cut_runes b.cur size ∷ []) h
            ((ground (arith, length-take size b.cur), ground (arith, length-take size b.cur)), tt)))
  ]

  close-fits :
      (p : Text) (b : Building)
      → length b.cur ≤ size
      → AllFit b.chunks
      → AllFit (close size overlap p b).chunks
  unfolding close
  close-fits p b short h = elim (Bool-cases (closes size p b)) [
    | inr e ↦ rw e h
    | inl e ↦ rw e (
        All-append (Fits size) b.chunks (b.cur ∷ []) h ((nonempty b.cur (ground arith), short), tt))
  ]

  add_paragraph-fits :
      (p : Text) (b : Building)
      → length b.cur ≤ size
      → AllFit b.chunks
      → AllFit (add_paragraph size overlap p b).chunks
        × (length (add_paragraph size overlap p b).cur ≤ size)
  unfolding add_paragraph add
  add_paragraph-fits p b short h =
      hard_cut-fits _ (add p (close size overlap p b)) (omega arith) (close-fits p b short h)

  add_paragraphs-fits :
      (ps : List Text) (b : Building)
      → length b.cur ≤ size
      → AllFit b.chunks
      → AllFit (add_paragraphs size overlap ps b).chunks
        × (length (add_paragraphs size overlap ps b).cur ≤ size)
  unfolding add_paragraphs
  add_paragraphs-fits [] b short h = (h, short)
  add_paragraphs-fits (p ∷ ps) b short h =
      let next = add_paragraph-fits p b short h in
      add_paragraphs-fits ps (add_paragraph size overlap p b) next.1 next.0

  finish-fits : (b : Building) → length b.cur ≤ size → AllFit b.chunks → AllFit (finish b)
  unfolding finish
  finish-fits b short h = elim (Bool-cases (is_empty b.cur)) [
    | inl e ↦ rw e h
    | inr e ↦ rw e (All-append (Fits size) b.chunks (b.cur ∷ []) h ((nonempty b.cur e, short), tt))
  ]

  -- With a positive size and an overlap below it, every chunk has at least one rune and at most
  -- `size`, however long the paragraphs are.
  pub chunk_paragraphs-fits : (ps : List Text) → AllFit (chunk_paragraphs size overlap ps)
  unfolding chunk_paragraphs
  chunk_paragraphs-fits ps =
      let done = add_paragraphs-fits ps (record { chunks = []; cur = [] }) (omega arith) tt in
      finish-fits _ done.1 done.0

pub effective_lem :
    (size overlap : ℤ)
    → (0 < effective_size size)
      × (effective_overlap (effective_size size) overlap < effective_size size)
unfolding effective_size effective_overlap
effective_lem (pos n) (pos m) = (ground arith, ground arith)
effective_lem (pos n) (negsuc m) = (ground arith, ground arith)
effective_lem (negsuc n) (pos m) = (ground arith, ground arith)
effective_lem (negsuc n) (negsuc m) = (ground arith, ground arith)

-- For every text of valid UTF-8, every size and every overlap: no chunk is empty, and none has more
-- runes than the size in force.
pub chunk_text-Fits :
    (text : Text) (size overlap : ℤ)
    → All (Fits (effective_size size)) (chunk_text text size overlap)
unfolding chunk_text
chunk_text-Fits text size overlap = elim (Bool-cases (is_empty (trim_space text))) [
  | inl e ↦ rw e tt
  | inr e ↦
      let (positive, below) = effective_lem size overlap in
      rw e (
        chunk_paragraphs-fits (effective_size size)
          (effective_overlap (effective_size size) overlap) positive below
          (split_paragraphs (trim_space text)))
]
