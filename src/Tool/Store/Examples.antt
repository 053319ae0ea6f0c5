-- ===== src/Tool/Store/Examples.antt =====
-- A tool with two versions, and a call of it.
use text.Mathlib.TextEquality.{eq_iff}
use ecommerce_ops_agent.Base.{
  ◌≡◌, ◌≢◌, refl, List, [], ◌∷◌, All, true, false, err, arith, string_eq,
}
use ecommerce_ops_agent.Base.Int.{pos}
use ecommerce_ops_agent.Base.Dict.{lookup}
use ecommerce_ops_agent.Tool.Record.{Tool, ToolVersion, ToolInvocation}
use ecommerce_ops_agent.Tool.Store.{
  Store, new_memory_tool_store, any, create_invocation, invocation_exists,
}
use ecommerce_ops_agent.Tool.Store.History.{
  Write, create, create_with_version, add_version, complete, run,
}
use ecommerce_ops_agent.Tool.Store.Names.{UniqueNames, run-UniqueNames}
use ecommerce_ops_agent.Tool.Store.Invocations.{Spares, invocation_once}

abbrev tool : Tool
tool = record {
  id = "t1";
  workspace_id = "w1";
  name = "refund";
  source_type = "rest_api";
  description = "";
  sensitive = true;
  created_by = "u1";
  created_at = 1;
  updated_at = 1;
}

abbrev version : ToolVersion
version = record {
  id = "v1";
  tool_id = "t1";
  version = 1;
  schema_json = "{}";
  endpoint_config = "{}";
  auth_config = "{}";
  auth_config_encrypted = [];
  has_auth = false;
  retry_policy = "{}";
  status = "published";
  created_by = "u1";
  created_at = 1;
}

abbrev call : ToolInvocation
call = record {
  id = "i1";
  workspace_id = "w1";
  conversation_id = "c1";
  tool_call_id = "call-1";
  tool_version_id = "v1";
  args = "{}";
  result = "";
  status = "running";
  latency_ms = pos 0;
  error = "";
  created_at = 1;
}

empty_UniqueNames : UniqueNames new_memory_tool_store
unfolding UniqueNames new_memory_tool_store lookup
empty_UniqueNames i j t u h = ground (arith, h)

abbrev writes : List Write
writes =
    create_with_version tool version
    ∷ create (record tool { id = "t2" })
    ∷ add_version (record version { id = "v2"; version = 2 })
    ∷ []

run-UniqueNames_example : UniqueNames (run writes new_memory_tool_store)
run-UniqueNames_example = run-UniqueNames writes new_memory_tool_store empty_UniqueNames

named : call.tool_call_id ≢ ""
named = ground (arith, eq_iff "call-1" "")

abbrev finish : List Write
finish = complete "i1" "done" "success" (pos 12) "" ∷ create tool ∷ []

finish-Spares : All (Spares "i1") finish
unfolding Spares
finish-Spares = (tt, (tt, tt))

invocation_once_example :
    let t = run finish (create_invocation call new_memory_tool_store).0 in
    create_invocation (record call { id = "i2" }) t ≡ (t, err invocation_exists)
unfolding create_invocation any new_memory_tool_store
invocation_once_example =
    invocation_once call (record call { id = "i2" }) finish new_memory_tool_store refl refl named
      finish-Spares refl

abbrev succeeded : ToolInvocation
succeeded = record call { status = "success" }

abbrev store : Store
store = record {
  tools = [];
  versions = [];
  current = [];
  test_runs = [];
  invocations = ("i1", succeeded) ∷ [];
}

ended : succeeded.status ≢ "running"
ended = ground (arith, eq_iff "success" "running")

abbrev versioned : Store
versioned = record store { versions = ("v1", version) ∷ [] }
