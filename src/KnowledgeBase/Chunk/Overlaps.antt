-- ===== src/KnowledgeBase/Chunk/Overlaps.antt =====
-- Chunks that repeat the end of the one before, and besides hold the paragraphs once.
use ecommerce_ops_agent.Base.{
  ℕ, ◌-◌, ◌≡◌, refl, sym, ap, ◌∙◌, List, [], ◌∷◌, ◌++◌, false, arith, length, take, drop, min,
  length-drop, take-append-drop,
}
use ecommerce_ops_agent.Base.Int.{ℤ}
use ecommerce_ops_agent.KnowledgeBase.Runes.{Text, is_empty, trim_space}
use ecommerce_ops_agent.KnowledgeBase.Chunk.{
  tail_runes, chunk_text, effective_size, effective_overlap, split_paragraphs,
}
use ecommerce_ops_agent.KnowledgeBase.Chunk.Bounds.{effective_lem}
use ecommerce_ops_agent.KnowledgeBase.Chunk.Coverage.{
  uncover, Linked, Follows, drop-append, chunk_paragraphs_lem,
}

-- Each chunk begins with the last `overlap` runes of the one before, or with all of it when it is
-- shorter; what the chunks have behind that, one after the other, is the last text.
abbrev pub Joins : ℕ → Text → List Text → Text → Type 0
Joins overlap prev [] u = u ≡ []
Joins overlap prev (c ∷ cs) u =
    (before : Text) × (repeated : Text) × (fresh : Text) × (later : Text) × (prev
      ≡ before ++ repeated)
    × (length repeated ≡ min overlap (length prev))
    × (c ≡ repeated ++ fresh)
    × (u ≡ fresh ++ later)
    × Joins overlap c cs later

tail_runes_lem :
    (overlap : ℕ) (prev : Text)
    → (prev ≡ take (length prev - overlap) prev ++ tail_runes prev overlap)
      × (length (tail_runes prev overlap) ≡ min overlap (length prev))
unfolding tail_runes
tail_runes_lem overlap prev = (
  sym (take-append-drop (length prev - overlap) prev),
  omega (arith, length-drop (length prev - overlap) prev),
)

Linked-Joins :
    (overlap : ℕ) (prev : Text) (cs : List Text)
    → Linked overlap prev cs
    → Joins overlap prev cs (uncover overlap prev cs)
unfolding Linked uncover
Linked-Joins overlap prev [] h = refl
Linked-Joins overlap prev (c ∷ cs) ((fresh, begins), h) =
    let (cut, long) = tail_runes_lem overlap prev in
    (
      take (length prev - overlap) prev,
      tail_runes prev overlap,
      fresh,
      uncover overlap c cs,
      cut,
      long,
      begins,
      ap (λ t. t ++ uncover overlap c cs)
          (ap (drop (length (tail_runes prev overlap))) begins
            ∙ drop-append (tail_runes prev overlap) fresh),
      Linked-Joins overlap c cs h,
    )

-- For every text of valid UTF-8 with something in it, every size and every overlap: each chunk begins
-- with the end of the one before it, of as many runes as the overlap or the whole of a shorter one;
-- what the chunks have behind that gives, one after the other, all paragraphs of the trimmed text in
-- order, whole, with at most a newline between them.
pub chunk_text-Follows :
    (text : Text) (size overlap : ℤ)
    → is_empty (trim_space text) ≡ false
    → (u : Text) × Joins
        (effective_overlap (effective_size size) overlap)
        []
        (chunk_text text size overlap)
        u
      × Follows [] (split_paragraphs (trim_space text)) u
unfolding chunk_text
chunk_text-Follows text size overlap e =
    let n = effective_size size in
    let k = effective_overlap n overlap in
    let (linked, follows) =
      chunk_paragraphs_lem n k (effective_lem size overlap).1
        (split_paragraphs (trim_space text)) in
    rw e (uncover k [] _, Linked-Joins k [] _ linked, follows)
