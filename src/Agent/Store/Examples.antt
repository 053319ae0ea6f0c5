-- ===== src/Agent/Store/Examples.antt =====
-- One agent with a version, and one conversation.
use ecommerce_ops_agent.Base.{
  ℕ, ◌≡◌, refl, List, [], ◌∷◌, ◌++◌, All, true, false, none, some, ok, err, arith, string_eq,
}
use ecommerce_ops_agent.Base.Dict.{insert, lookup}
use ecommerce_ops_agent.Base.Decimal.{decimal}
use ecommerce_ops_agent.Agent.Record.{AgentVersion, Conversation, Message}
use ecommerce_ops_agent.Agent.Store.{
  Store, claim_conversation_turn, create_message, touched, claim_turn, allowed,
  commit_conversation_turn, present, get_conversation_messages, next_turn, turn_or_zero,
  lease_unavailable,
}
use ecommerce_ops_agent.Agent.Store.Turns.{
  Call, claim, say, run, ForeignBefore, turn_exclusive, step,
}
use ecommerce_ops_agent.Agent.Store.Commits.{commit_once}

abbrev first : AgentVersion
first = record {
  id = "v1";
  agent_id = "a1";
  version = 1;
  snapshot_json = "{}";
  created_by = "u1";
  created_at = 1;
}

abbrev chat : Conversation
chat = record {
  id = "c1";
  agent_id = "a1";
  agent_version_id = "v1";
  workspace_id = "w1";
  user_id = "u1";
  status = "active";
  classification = "internal";
  runtime_config_json = "";
  started_at = 1;
  updated_at = 1;
}

abbrev store : Store
store = record {
  agents = [];
  agent_versions = ("v1", first) ∷ [];
  agent_bindings = ("a1", ("dev", "v1") ∷ []) ∷ [];
  conversations = ("c1", chat) ∷ [];
  messages = [];
  conversation_turns = [];
}

abbrev hello : Message
hello = record {
  id = "m1";
  conversation_id = "c1";
  role = "user";
  content = "hello";
  tool_calls = [];
  tool_call_id = none;
  created_at = 8;
}

claimed : (claim_conversation_turn 7 "c1" false store).1 ≡ ok "turn-7-1"
unfolding claim_conversation_turn claim_turn allowed lookup string_eq decimal
claimed = refl

-- Another worker tries to claim the conversation, and a message is added from outside.
abbrev others : List (ℕ × Call)
others = (8, claim "c1" true) ∷ (9, say hello) ∷ []

others-Foreign :
    All
      (ForeignBefore "c1" (next_turn 7 (turn_or_zero (lookup "c1" store.conversation_turns))))
      others
others-Foreign = ((omega arith, tt), ((omega arith, tt), tt))

turn_exclusive_example :
    ((claim_conversation_turn 10 "c1" true
        (run (claim_conversation_turn 7 "c1" false store).0 others)).0
      ≡ run (claim_conversation_turn 7 "c1" false store).0 others)
    × ((commit_conversation_turn 10 "c1" "turn-7-1"
          (none ∷ some hello ∷ [])
          "active"
          (run (claim_conversation_turn 7 "c1" false store).0 others)).1
        ≡ ok tt)
    × (get_conversation_messages "c1"
          (commit_conversation_turn 10 "c1" "turn-7-1"
            (none ∷ some hello ∷ [])
            "active"
            (run (claim_conversation_turn 7 "c1" false store).0 others)).0
        ≡ get_conversation_messages "c1" (run (claim_conversation_turn 7 "c1" false store).0 others)
          ++ present (none ∷ some hello ∷ []))
turn_exclusive_example =
    turn_exclusive 7 10 "c1" "turn-7-1" "active" false true store others (none ∷ some hello ∷ [])
      claimed others-Foreign (omega arith)

committed :
    (commit_conversation_turn 10 "c1" "turn-7-1"
      (some hello ∷ [])
      "active"
      (run (claim_conversation_turn 7 "c1" false store).0 others)).1
    ≡ ok tt
unfolding claim_conversation_turn claim_turn allowed lookup string_eq decimal run step
    commit_conversation_turn insert create_message touched
committed = refl

-- The conversation is claimed again, under another token.
abbrev afterwards : List (ℕ × Call)
afterwards = (11, claim "c1" false) ∷ []

commit_once_example :
    let u = run (claim_conversation_turn 7 "c1" false store).0 others in
    let w = (commit_conversation_turn 10 "c1" "turn-7-1" (some hello ∷ []) "active" u).0 in
    commit_conversation_turn 12 "c1" "turn-7-1" (some hello ∷ []) "active" (run w afterwards)
    ≡ (run w afterwards, err lease_unavailable)
commit_once_example =
    commit_once 7 10 12 "c1" "turn-7-1" "active" "active" false store (some hello ∷ [])
      (some hello ∷ []) others afterwards claimed committed
