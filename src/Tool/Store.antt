-- ===== src/Tool/Store.antt =====
-- `MemoryToolStore` of internal/platform/memory_store_m2.go. A method under the mutex is a function to
-- the new store and its result. A list that Go makes by ranging over a map comes in the order of the
-- dictionary, and so do the rounds of a loop over one.
pub mod History
pub mod Names
pub mod Invocations
pub mod Published
pub mod Examples
use ecommerce_ops_agent.Base.{
  ℕ, String, List, [], ◌∷◌, ◌++◌, Bool, true, false, ◌&&◌, ◌||◌, not, Option, none, some, Result,
  ok, err, if◌then◌else◌, ◌==◌, string_eq, ltb, keep,
}
use ecommerce_ops_agent.Base.Int.{ℤ}
use ecommerce_ops_agent.Base.Dict.{Dict, lookup, insert, values}
use ecommerce_ops_agent.Base.Sort.{sort, by}
use ecommerce_ops_agent.Tool.Record.{Tool, ToolVersion, ToolTestRun, ToolInvocation}

pub data Error : Type 0 where
  tool_not_found name_exists version_not_found no_version no_published_version invocation_exists
        not_running no_successful_run nil_version :
      Error

pub record Store : Type 0 where
  pub tools : Dict String Tool
  pub versions : Dict String ToolVersion
  pub current : Dict String String
  pub test_runs : Dict String (List ToolTestRun)
  pub invocations : Dict String ToolInvocation

unfoldable pub new_memory_tool_store : Store
new_memory_tool_store = record {
  tools = [];
  versions = [];
  current = [];
  test_runs = [];
  invocations = [];
}

abbrev found_or {ℓ} : {A : Type ℓ} → Error → Option A → Result Error A
found_or e none = err e
found_or e (some a) = ok a

pub get_tool : String → Store → Result Error Tool
get_tool id s = found_or tool_not_found (lookup id s.tools)

-- Some element of a list passes a test: a loop that returns at the first.
unfoldable pub any {ℓ} : {A : Type ℓ} → (A → Bool) → List A → Bool
any p [] = false
any p (x ∷ xs) = p x || any p xs

abbrev pub same_name : Tool → Tool → Bool
same_name tool existing = existing.workspace_id == tool.workspace_id && existing.name == tool.name

unfoldable pub create_tool : Tool → Store → Store × Result Error (Unit {0})
unfolding any
create_tool tool s =
    if any (same_name tool) (values s.tools)
    then (s, err name_exists)
    else (record s { tools = insert tool.id tool s.tools }, ok tt)

unfoldable pub create_tool_with_version :
    Tool → ToolVersion → Store → Store × Result Error (Unit {0})
unfolding any
create_tool_with_version tool version s =
    if any (same_name tool) (values s.tools) then (s, err name_exists) else (
      record s {
        tools = insert tool.id tool s.tools;
        versions = insert version.id version s.versions;
        current = insert tool.id version.id s.current;
      },
      ok tt,
    )

pub list_tools : String → Store → List Tool
list_tools workspace s =
    sort (by (λ (t : Tool). t.created_at))
      (keep (λ (t : Tool). workspace == "" || t.workspace_id == workspace) (values s.tools))

pub get_tool_version : String → Store → Result Error ToolVersion
get_tool_version id s = found_or version_not_found (lookup id s.versions)

unfoldable pub create_tool_version : ToolVersion → Store → Store
create_tool_version version s = record s {
  versions = insert version.id version s.versions;
  current = insert version.tool_id version.id s.current;
}

-- A current version that is not in the map is a nil pointer beside a nil error.
pub get_tool_current_version : String → Store → Result Error ToolVersion
get_tool_current_version tool s = elim (lookup tool s.current) [
  | none ↦ err no_version
  | some id ↦ found_or nil_version (lookup id s.versions)
]

abbrev pub is_newer : Option ToolVersion → ToolVersion → Bool
is_newer none v = true
is_newer (some latest) v = ltb latest.version v.version

abbrev pub is_published : String → ToolVersion → Bool
is_published tool v = v.tool_id == tool && v.status == "published"

unfoldable pub latest_published :
    String → Option ToolVersion → List ToolVersion → Option ToolVersion
latest_published tool latest [] = latest
latest_published tool latest (v ∷ vs) =
    latest_published tool (if is_published tool v && is_newer latest v then some v else latest) vs

unfoldable pub get_tool_latest_published_version : String → Store → Result Error ToolVersion
unfolding latest_published
get_tool_latest_published_version tool s =
    found_or no_published_version (latest_published tool none (values s.versions))

pub list_tool_versions : String → Store → List ToolVersion
list_tool_versions tool s =
    sort (λ (v w : ToolVersion). ltb w.version v.version)
      (keep (λ (v : ToolVersion). v.tool_id == tool) (values s.versions))

unfoldable pub update_tool_version_status :
    String → String → Store → Store × Result Error (Unit {0})
update_tool_version_status id status s = elim (lookup id s.versions) [
  | none ↦ (s, err version_not_found)
  | some v ↦ (record s { versions = insert id (record v { status = status }) s.versions }, ok tt)
]

abbrev is_empty : List ℕ → Bool
is_empty [] = true
is_empty (_ ∷ _) = false

pub list_legacy_tool_auth_versions : Store → List ToolVersion
list_legacy_tool_auth_versions s =
    keep
      (λ (v : ToolVersion).
        is_empty v.auth_config_encrypted
        && (not (v.auth_config == "") && not (v.auth_config == "{}")))
      (values s.versions)

abbrev encrypted : List ℕ → ToolVersion → ToolVersion
encrypted ciphertext v =
    if is_empty v.auth_config_encrypted
    then record v { auth_config = "{}"; auth_config_encrypted = ciphertext }
    else v

unfoldable pub encrypt_tool_version_auth : String → List ℕ → Store → Store × Result Error (Unit {0})
encrypt_tool_version_auth id ciphertext s = elim (lookup id s.versions) [
  | none ↦ (s, err version_not_found)
  | some v ↦ (record s { versions = insert id (encrypted ciphertext v) s.versions }, ok tt)
]

abbrev pub same_call : ToolInvocation → ToolInvocation → Bool
same_call invocation existing =
    not (invocation.tool_call_id == "")
    && (existing.conversation_id == invocation.conversation_id
        && existing.tool_call_id == invocation.tool_call_id)

unfoldable pub create_invocation : ToolInvocation → Store → Store × Result Error (Unit {0})
unfolding any
create_invocation invocation s =
    if any (same_call invocation) (values s.invocations)
    then (s, err invocation_exists)
    else (record s { invocations = insert invocation.id invocation s.invocations }, ok tt)

unfoldable pub complete_invocation :
    String → String → String → ℤ → String → Store → Store × Result Error (Unit {0})
complete_invocation id result status latency_ms error s = elim (lookup id s.invocations) [
  | none ↦ (s, err not_running)
  | some invocation ↦ if not (invocation.status == "running") then (s, err not_running) else (
    record s {
      invocations =
          insert id
            (record invocation {
              result = result;
              status = status;
              latency_ms = latency_ms;
              error = error;
            })
            s.invocations;
    },
    ok tt,
  )
]

abbrev or_none {ℓ} : {A : Type ℓ} → Option (List A) → List A
or_none none = []
or_none (some xs) = xs

unfoldable pub create_test_run : ToolTestRun → Store → Store
create_test_run run s = record s {
  test_runs = insert run.tool_id (or_none (lookup run.tool_id s.test_runs) ++ run ∷ []) s.test_runs;
}

-- The loop from the last run of a list to its first.
last_success : String → Option ToolTestRun → List ToolTestRun → Option ToolTestRun
last_success version last [] = last
last_success version last (run ∷ runs) =
    last_success version
      (if run.tool_version_id == version && run.status == "success" then some run else last) runs

last_success_in : String → List (List ToolTestRun) → Option ToolTestRun
unfolding last_success
last_success_in version [] = none
last_success_in version (runs ∷ rest) = elim (last_success version none runs) [
  | some run ↦ some run
  | none ↦ last_success_in version rest
]

pub get_tool_last_successful_test_run_for_version : String → Store → Result Error ToolTestRun
unfolding last_success_in
get_tool_last_successful_test_run_for_version version s =
    found_or no_successful_run (last_success_in version (values s.test_runs))
