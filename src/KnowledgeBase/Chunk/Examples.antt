-- ===== src/KnowledgeBase/Chunk/Examples.antt =====
-- A short text in two paragraphs, cut to four runes with an overlap of one.
use ecommerce_ops_agent.Base.{◌≡◌, refl, [], ◌∷◌, All, false, nat_eq}
use ecommerce_ops_agent.Base.Int.{pos}
use ecommerce_ops_agent.KnowledgeBase.Runes.{Text, trim_space, is_empty, split_blank}
use ecommerce_ops_agent.KnowledgeBase.Chunk.{
  chunk_text, tail_runes, split_paragraphs, effective_size, effective_overlap, tail_runes,
}
use ecommerce_ops_agent.KnowledgeBase.Chunk.Bounds.{Fits, chunk_text-Fits}
use ecommerce_ops_agent.KnowledgeBase.Chunk.Coverage.{Follows}
use ecommerce_ops_agent.KnowledgeBase.Chunk.Overlaps.{Joins, chunk_text-Follows}

abbrev text : Text
text = 32 ∷ 1 ∷ 2 ∷ 3 ∷ 10 ∷ 10 ∷ 4 ∷ 5 ∷ 6 ∷ 7 ∷ 10 ∷ []

cut_example :
    chunk_text text (pos 4) (pos 1)
    ≡ (1 ∷ 2 ∷ 3 ∷ []) ∷ (3 ∷ 10 ∷ 4 ∷ 5 ∷ []) ∷ (5 ∷ 6 ∷ 7 ∷ []) ∷ []
unfolding chunk_text trim_space split_blank nat_eq tail_runes
cut_example = refl

pub one_letter : chunk_text (97 ∷ []) (pos 800) (pos 100) ≡ (97 ∷ []) ∷ []
unfolding chunk_text trim_space split_blank nat_eq tail_runes
one_letter = refl

chunk_text-Fits_example : All (Fits (effective_size (pos 4))) (chunk_text text (pos 4) (pos 1))
chunk_text-Fits_example = chunk_text-Fits text (pos 4) (pos 1)

not_blank : is_empty (trim_space text) ≡ false
unfolding trim_space nat_eq
not_blank = refl

chunk_text-Follows_example :
    (u : Text) × Joins
      (effective_overlap (effective_size (pos 4)) (pos 1))
      []
      (chunk_text text (pos 4) (pos 1))
      u
    × Follows [] (split_paragraphs (trim_space text)) u
chunk_text-Follows_example = chunk_text-Follows text (pos 4) (pos 1) not_blank
