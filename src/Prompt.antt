-- ===== src/Prompt.antt =====
-- `MemoryPromptStore` of internal/platform/memory_store.go: prompts and their immutable versions. A
-- method under the mutex is a function to the new store and its result.
pub mod Versions
use ecommerce_ops_agent.Base.{
  ℕ, String, List, [], ◌∷◌, Bool, ◌&&◌, ◌||◌, Option, none, some, Result, ok, err, if◌then◌else◌,
  ◌==◌, string_eq, nat_eq, keep,
}
use ecommerce_ops_agent.Base.Dict.{Dict, lookup, insert, erase, values}
use ecommerce_ops_agent.Base.Int.{ℤ}
use ecommerce_ops_agent.Base.Sort.{sort, by}

pub record Prompt : Type 0 where
  pub id : String
  pub workspace_id : String
  pub name : String
  pub category : String
  pub created_by : String
  pub created_at : ℕ
  pub updated_at : ℕ

pub record PromptVersion : Type 0 where
  pub id : String
  pub prompt_id : String
  pub version : ℕ
  pub template : String
  pub variables_schema : String
  pub hash : String
  pub token_estimate : ℤ
  pub created_by : String
  pub created_at : ℕ

pub data Error : Type 0 where
  prompt_not_found version_not_found : Error
  number_not_found : ℕ → Error

pub record Store : Type 0 where
  pub prompts : Dict String Prompt
  pub versions : Dict String PromptVersion

pub new_memory_prompt_store : Store
new_memory_prompt_store = record { prompts = []; versions = [] }

pub create_prompt : Prompt → Store → Store
create_prompt p s = record s { prompts = insert p.id p s.prompts }

-- The loop that deletes the versions of a prompt.
pub without_versions_of : String → Dict String PromptVersion → Dict String PromptVersion
without_versions_of prompt [] = []
without_versions_of prompt ((id, v) ∷ d) =
    let rest = without_versions_of prompt d in
    if v.prompt_id == prompt then rest else (id, v) ∷ rest

pub delete_prompt : String → Store → Store
unfolding without_versions_of
delete_prompt id s = record s {
  prompts = erase id s.prompts;
  versions = without_versions_of id s.versions;
}

pub get_prompt : String → Store → Result Error Prompt
get_prompt id s = elim (lookup id s.prompts) [ none ↦ err prompt_not_found | some p ↦ ok p ]

pub list_prompts : String → Store → List Prompt
list_prompts workspace s =
    sort (by (λ (p : Prompt). p.created_at))
      (keep (λ (p : Prompt). workspace == "" || p.workspace_id == workspace) (values s.prompts))

pub create_prompt_version : PromptVersion → Store → Store
create_prompt_version v s = record s { versions = insert v.id v s.versions }

pub get_prompt_version : String → Store → Result Error PromptVersion
get_prompt_version id s = elim (lookup id s.versions) [
  | none ↦ err version_not_found
  | some v ↦ ok v
]

pub first_numbered : String → ℕ → List PromptVersion → Option PromptVersion
first_numbered prompt number [] = none
first_numbered prompt number (v ∷ vs) =
    if v.prompt_id == prompt && v.version == number then some v else first_numbered prompt number vs

pub get_prompt_version_by_number : String → ℕ → Store → Result Error PromptVersion
unfolding first_numbered
get_prompt_version_by_number prompt number s =
    elim (first_numbered prompt number (values s.versions)) [
      | none ↦ err (number_not_found number)
      | some v ↦ ok v
    ]

abbrev pub is_version_of : String → PromptVersion → Bool
is_version_of prompt v = v.prompt_id == prompt

abbrev pub number : PromptVersion → ℕ
number v = v.version

pub list_prompt_versions : String → Store → List PromptVersion
list_prompt_versions prompt s = sort (by number) (keep (is_version_of prompt) (values s.versions))
