-- ===== src/KnowledgeBase/Chunk.antt =====
-- internal/platform/kb/chunk.go: a document is cut into chunks of at most `size` runes that overlap.
pub mod Bounds
pub mod Coverage
pub mod Overlaps
pub mod Examples
use ecommerce_ops_agent.Base.{
  ℕ, zero, suc, ◌+◌, ◌-◌, ◌/◌, List, [], ◌∷◌, ◌++◌, Bool, true, false, ◌&&◌, ◌||◌, not,
  if◌then◌else◌, ltb, leb, length, take, drop,
}
use ecommerce_ops_agent.Base.Int.{ℤ, pos, negsuc, leb_ℤ, ltb_ℤ}
use ecommerce_ops_agent.KnowledgeBase.Runes.{Text, newline, trim_space, is_empty, split_blank}

-- The last `n` runes.
pub tail_runes : Text → ℕ → Text
tail_runes s n = drop (length s - n) s

-- The first `n` runes.
abbrev pub cut_runes : Text → ℕ → Text
cut_runes s n = take n s

trimmed_paragraphs : List Text → List Text
trimmed_paragraphs [] = []
trimmed_paragraphs (p ∷ ps) =
    let rest = trimmed_paragraphs ps in
    if is_empty (trim_space p) then rest else trim_space p ∷ rest

abbrev or_whole : Text → List Text → List Text
or_whole text [] = text ∷ []
or_whole text (p ∷ ps) = p ∷ ps

pub split_paragraphs : Text → List Text
unfolding trimmed_paragraphs
split_paragraphs text = or_whole text (trimmed_paragraphs (split_blank text))

-- The chunks so far, and the builder `cur`.
pub record Building : Type 0 where
  pub chunks : List Text
  pub cur : Text

-- The inner loop: hard cuts while `cur` is too long. `fuel` bounds the rounds.
pub hard_cut : ℕ → ℕ → ℕ → Building → Building
hard_cut zero size overlap b = b
hard_cut (suc fuel) size overlap b =
    let cut = cut_runes b.cur size in
    let next =
      hard_cut fuel size overlap (record {
        chunks = b.chunks ++ cut ∷ [];
        cur = tail_runes cut overlap ++ drop size b.cur;
      }) in
    if ltb size (length b.cur) then next else b

-- The chunk is closed when the paragraph does not fit behind it; the next begins with its tail.
pub closes : ℕ → Text → Building → Bool
closes size p b = not (is_empty b.cur) && ltb size (length b.cur + length p + 1)

pub close : ℕ → ℕ → Text → Building → Building
unfolding closes
close size overlap p b =
    if closes size p b
    then record { chunks = b.chunks ++ b.cur ∷ []; cur = tail_runes b.cur overlap }
    else b

pub separator : Text → Text
separator cur = if is_empty cur then [] else newline ∷ []

pub add : Text → Building → Building
unfolding separator
add p b = record b { cur = b.cur ++ (separator b.cur ++ p) }

-- One round of the loop over the paragraphs. A hard cut shortens `cur`, so its length is fuel enough.
pub add_paragraph : ℕ → ℕ → Text → Building → Building
unfolding hard_cut close add
add_paragraph size overlap p b =
    let c = add p (close size overlap p b) in hard_cut (length c.cur) size overlap c

pub add_paragraphs : ℕ → ℕ → List Text → Building → Building
unfolding add_paragraph
add_paragraphs size overlap [] b = b
add_paragraphs size overlap (p ∷ ps) b =
    add_paragraphs size overlap ps (add_paragraph size overlap p b)

pub finish : Building → List Text
finish b = if is_empty b.cur then b.chunks else b.chunks ++ b.cur ∷ []

pub chunk_paragraphs : ℕ → ℕ → List Text → List Text
unfolding add_paragraphs finish
chunk_paragraphs size overlap ps =
    finish (add_paragraphs size overlap ps (record { chunks = []; cur = [] }))

-- The defaults for a size that is not positive, and an overlap that is negative or not below it.
pub effective_size : ℤ → ℕ
effective_size (pos n) = if leb n 0 then 500 else n
effective_size (negsuc n) = 500

pub effective_overlap : ℕ → ℤ → ℕ
effective_overlap size (pos n) = if leb size n then size / 5 else n
effective_overlap size (negsuc n) = size / 5

pub chunk_text : Text → ℤ → ℤ → List Text
unfolding chunk_paragraphs split_paragraphs effective_size effective_overlap
chunk_text text size overlap =
    let trimmed = trim_space text in
    let chunks =
      chunk_paragraphs (effective_size size) (effective_overlap (effective_size size) overlap)
        (split_paragraphs trimmed) in
    if is_empty trimmed then [] else chunks
