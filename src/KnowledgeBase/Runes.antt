-- ===== src/KnowledgeBase/Runes.antt =====
-- The `strings` and `unicode` functions that internal/platform/kb/chunk.go uses, over the runes of a
-- text: a text is the list of its code points, as Go reads valid UTF-8.
-- On other bytes `cutRunes` gives longer texts than it was given, which is not modelled.
use ecommerce_ops_agent.Base.{
  ℕ, List, [], ◌∷◌, Bool, true, false, ◌&&◌, ◌||◌, if◌then◌else◌, ◌==◌, nat_eq, leb, ◌≡◌, refl,
}
use mathlib.Core.List.{reverse}

abbrev pub Text : Type 0
Text = List ℕ

abbrev pub newline : ℕ
newline = 10

-- `unicode.IsSpace`.
pub is_space : ℕ → Bool
is_space r =
    (leb 9 r && leb r 13)
    || (r == 32
        || (r == 0x85
            || (r == 0xa0
                || (r == 0x1680
                    || ((leb 0x2000 r && leb r 0x200a)
                        || (r == 0x2028
                            || (r == 0x2029 || (r == 0x202f || (r == 0x205f || r == 0x3000)))))))))

trim_left : Text → Text
unfolding is_space
trim_left [] = []
trim_left (r ∷ rs) = let rest = trim_left rs in if is_space r then rest else r ∷ rs

unfoldable pub trim_space : Text → Text
unfolding trim_left
trim_space s = reverse (trim_left (reverse (trim_left s)))

abbrev pub is_empty : Text → Bool
is_empty [] = true
is_empty (_ ∷ _) = false

abbrev onto_first : ℕ → List Text → List Text
onto_first r [] = (r ∷ []) ∷ []
onto_first r (t ∷ ts) = (r ∷ t) ∷ ts

-- `strings.Split(text, "\n\n")`: the separators are found from the left and do not overlap.
unfoldable pub split_blank : Text → List Text
split_blank [] = [] ∷ []
split_blank (r ∷ []) = (r ∷ []) ∷ []
split_blank (r ∷ q ∷ rest) =
    let cut = [] ∷ split_blank rest in
    let on = onto_first r (split_blank (q ∷ rest)) in
    if r == newline && q == newline then cut else on

split_example :
    split_blank (1 ∷ 10 ∷ 10 ∷ 10 ∷ 2 ∷ 10 ∷ 3 ∷ []) ≡ (1 ∷ []) ∷ (10 ∷ 2 ∷ 10 ∷ 3 ∷ []) ∷ []
unfolding split_blank nat_eq
split_example = refl

trim_example : trim_space (32 ∷ 10 ∷ 7 ∷ 32 ∷ 8 ∷ 0x3000 ∷ []) ≡ 7 ∷ 32 ∷ 8 ∷ []
unfolding trim_space nat_eq
trim_example = refl
