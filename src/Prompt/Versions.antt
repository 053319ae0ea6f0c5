-- ===== src/Prompt/Versions.antt =====
-- What deleting a prompt does to the versions.
use mathlib.Core.Logic.{if_pos, if_neg}
use ecommerce_ops_agent.Base.{
  ℕ, ◌≡◌, refl, ◌≢◌, String, List, [], ◌∷◌, none, err, All, arith, string_eq, keep,
}
use ecommerce_ops_agent.Base.Dict.{Dict, values, lookup-erase}
use ecommerce_ops_agent.Base.Sort.{sort}
use ecommerce_ops_agent.Prompt.{
  PromptVersion, Store, delete_prompt, without_versions_of, get_prompt,
  get_prompt_version_by_number, first_numbered, list_prompt_versions, is_version_of,
  prompt_not_found, number_not_found,
}

values_without :
    (prompt : String) (d : Dict String PromptVersion)
    → All (λ v. v.prompt_id ≢ prompt) (values (without_versions_of prompt d))
unfolding without_versions_of
values_without prompt [] = tt
values_without prompt ((id, v) ∷ d) = elim (string_eq.dec v.prompt_id prompt) [
  | yes own ↦ rw (if_pos _ own) (values_without prompt d)
  | no other ↦ rw (if_neg _ other) (other, values_without prompt d)
]

none_numbered :
    (prompt : String) (n : ℕ) (vs : List PromptVersion)
    → All (λ v. v.prompt_id ≢ prompt) vs
    → first_numbered prompt n vs ≡ none
unfolding first_numbered
none_numbered prompt n [] h = refl
none_numbered prompt n (v ∷ vs) h = ground (arith, none_numbered prompt n vs h.1)

none_listed :
    (prompt : String) (vs : List PromptVersion)
    → All (λ v. v.prompt_id ≢ prompt) vs
    → keep (is_version_of prompt) vs ≡ []
none_listed prompt [] h = refl
none_listed prompt (v ∷ vs) h = ground (arith, none_listed prompt vs h.1)

-- The versions of other prompts, read in any of the three ways.
others_listed :
    (prompt other : String) (d : Dict String PromptVersion)
    → other ≢ prompt
    → keep (is_version_of other) (values (without_versions_of prompt d))
      ≡ keep (is_version_of other) (values d)
unfolding without_versions_of
others_listed prompt other [] apart = refl
others_listed prompt other ((id, v) ∷ d) apart = ground (arith, others_listed prompt other d apart)

others_numbered :
    (prompt other : String) (n : ℕ) (d : Dict String PromptVersion)
    → other ≢ prompt
    → first_numbered other n (values (without_versions_of prompt d))
      ≡ first_numbered other n (values d)
unfolding without_versions_of first_numbered
others_numbered prompt other n [] apart = refl
others_numbered prompt other n ((id, v) ∷ d) apart =
    ground (arith, others_numbered prompt other n d apart)

-- After a prompt is deleted it is not found, no version of it is listed, and no number finds one.
pub delete_prompt_clears :
    (id : String) (n : ℕ) (s : Store)
    → (get_prompt id (delete_prompt id s) ≡ err prompt_not_found)
      × (list_prompt_versions id (delete_prompt id s) ≡ [])
      × (get_prompt_version_by_number id n (delete_prompt id s) ≡ err (number_not_found n))
unfolding delete_prompt get_prompt list_prompt_versions get_prompt_version_by_number sort
delete_prompt_clears id n s =
    let gone = values_without id s.versions in
    (
      ground (arith, lookup-erase id id s.prompts),
      rw (none_listed id (values (without_versions_of id s.versions)) gone),
      rw (
        none_numbered id n (values (without_versions_of id s.versions)) gone,
        get_prompt_version_by_number,
      ),
    )

-- Deleting a prompt keeps every other prompt, the list of its versions, and each of them under its
-- number.
pub delete_prompt_keeps :
    (id other : String) (n : ℕ) (s : Store)
    → other ≢ id
    → (get_prompt other (delete_prompt id s) ≡ get_prompt other s)
      × (list_prompt_versions other (delete_prompt id s) ≡ list_prompt_versions other s)
      × (get_prompt_version_by_number other n (delete_prompt id s)
          ≡ get_prompt_version_by_number other n s)
unfolding delete_prompt get_prompt list_prompt_versions get_prompt_version_by_number
delete_prompt_keeps id other n s apart = (
  ground (arith, lookup-erase other id s.prompts),
  rw (others_listed id other s.versions apart),
  rw (others_numbered id other n s.versions apart, get_prompt_version_by_number),
)
