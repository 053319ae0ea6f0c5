-- ===== src/Agent/Store.antt =====
-- `MemoryAgentStore` of internal/platform/memory_store.go. A method under the mutex is a function to
-- the new store and its result. The clock, later than the zero time, is read once in a call. No caller
-- writes to a record it was handed.
pub mod Turns
pub mod Commits
pub mod Bindings
pub mod Examples
use ecommerce_ops_agent.Base.{
  ℕ, ◌+◌, String, ◌<>◌, List, [], ◌∷◌, ◌++◌, Bool, true, false, ◌&&◌, ◌||◌, not, Option, none, some,
  Result, ok, err, if◌then◌else◌, ◌==◌, string_eq, nat_eq, ltb, keep,
}
use ecommerce_ops_agent.Base.Dict.{Dict, lookup, insert, values}
use ecommerce_ops_agent.Base.Int.{ℤ}
use ecommerce_ops_agent.Base.Sort.{sort, by}
use ecommerce_ops_agent.Base.Decimal.{decimal}
use ecommerce_ops_agent.Agent.Record.{Agent, AgentVersion, Conversation, Message}
use ecommerce_ops_agent.Agent.Page.{page}

pub data Error : Type 0 where
  agent_not_found version_not_found conversation_not_found turn_running turn_not_ready
        lease_unavailable panic :
      Error
  no_version_for_env : String → Error

pub record Turn : Type 0 where
  pub token : String
  pub lease_until : ℕ
  pub revision : ℕ

pub record Store : Type 0 where
  pub agents : Dict String Agent
  pub agent_versions : Dict String AgentVersion
  pub agent_bindings : Dict String (Dict String String)
  pub conversations : Dict String Conversation
  pub messages : Dict String (List Message)
  pub conversation_turns : Dict String Turn

pub new_memory_store : Store
new_memory_store = record {
  agents = [];
  agent_versions = [];
  agent_bindings = [];
  conversations = [];
  messages = [];
  conversation_turns = [];
}

abbrev found_or {ℓ} : {A : Type ℓ} → Error → Option A → Result Error A
found_or e none = err e
found_or e (some a) = ok a

unfoldable pub get_agent : String → Store → Result Error Agent
get_agent id s = found_or agent_not_found (lookup id s.agents)

pub list_agents : String → Store → List Agent
list_agents workspace s =
    sort (by (λ (a : Agent). a.created_at))
      (keep (λ (a : Agent). a.workspace_id == workspace) (values s.agents))

-- `s.agentBindings[agentID]`, where a missing map reads as an empty one.
abbrev or_empty : Option (Dict String String) → Dict String String
or_empty none = []
or_empty (some d) = d

abbrev pub bindings_of : String → Store → Dict String String
bindings_of agent s = or_empty (lookup agent s.agent_bindings)

pub create_agent : Agent → Store → Store
create_agent agent s = record s {
  agents = insert agent.id agent s.agents;
  agent_bindings = insert agent.id (bindings_of agent.id s) s.agent_bindings;
}

pub create_agent_with_version : Agent → AgentVersion → Store → Store
create_agent_with_version agent version s = record s {
  agents = insert agent.id agent s.agents;
  agent_versions = insert version.id version s.agent_versions;
  agent_bindings = insert agent.id (("dev", version.id) ∷ []) s.agent_bindings;
}

-- A new version is at once the one of the environment `dev`.
unfoldable pub create_agent_version : AgentVersion → Store → Store
create_agent_version version s = record s {
  agent_versions = insert version.id version s.agent_versions;
  agent_bindings =
      insert version.agent_id (insert "dev" version.id (bindings_of version.agent_id s))
        s.agent_bindings;
}

unfoldable pub get_agent_version : String → Store → Result Error AgentVersion
get_agent_version id s = found_or version_not_found (lookup id s.agent_versions)

unfoldable pub list_agent_versions : String → Store → List AgentVersion
list_agent_versions agent s =
    sort (λ (v w : AgentVersion). ltb w.version v.version)
      (keep (λ (v : AgentVersion). v.agent_id == agent) (values s.agent_versions))

unfoldable pub get_agent_current_version : String → String → Store → Result Error AgentVersion
unfolding get_agent_version
get_agent_current_version agent env s = elim (lookup agent s.agent_bindings) [
  | none ↦ err agent_not_found
  | some bindings ↦ elim (lookup env bindings) [
    | none ↦ err (no_version_for_env env)
    | some id ↦ get_agent_version id s
  ]
]

unfoldable pub set_agent_env_binding :
    String → String → String → Store → Store × Result Error (Unit {0})
set_agent_env_binding agent env id s = elim (lookup id s.agent_versions) [
  | none ↦ (s, err version_not_found)
  | some version ↦ if not (version.agent_id == agent) then (s, err version_not_found) else (
    record s {
      agent_bindings = insert agent (insert env id (bindings_of agent s)) s.agent_bindings;
    },
    ok tt,
  )
]

pub create_conversation : Conversation → Store → Store
create_conversation c s = record s {
  conversations = insert c.id c s.conversations;
  messages = insert c.id [] s.messages;
}

-- What a read of a missing turn gives.
abbrev pub turn_or_zero : Option Turn → Turn
turn_or_zero none = record { token = ""; lease_until = 0; revision = 0 }
turn_or_zero (some t) = t

-- Two minutes.
abbrev pub lease : ℕ
lease = 120000000000

abbrev pub turn_token : ℕ → ℕ → String
turn_token now revision = "turn-" <> (decimal now <> ("-" <> decimal revision))

abbrev pub next_turn : ℕ → Turn → Turn
next_turn now t = record {
  token = turn_token now (t.revision + 1);
  lease_until = now + lease;
  revision = t.revision + 1;
}

pub allowed : Bool → Conversation → Bool
allowed true c = c.status == "awaiting_approval" || c.status == "active"
allowed false c = c.status == "active"

pub claim_turn : ℕ → String → Bool → Conversation → Turn → Store → Store × Result Error String
unfolding allowed
claim_turn now id resume c turn s =
    if not (turn.token == "") && ltb now turn.lease_until
    then (s, err turn_running)
    else if not (allowed resume c) && not (c.status == "running" && ltb turn.lease_until now)
    then (s, err turn_not_ready)
    else (
      record s {
        conversation_turns = insert id (next_turn now turn) s.conversation_turns;
        conversations =
            insert id (record c { status = "running"; updated_at = now }) s.conversations;
      },
      ok (next_turn now turn).token,
    )

pub claim_conversation_turn : ℕ → String → Bool → Store → Store × Result Error String
unfolding claim_turn
claim_conversation_turn now id resume s = elim (lookup id s.conversations) [
  | none ↦ (s, err conversation_not_found)
  | some c ↦ claim_turn now id resume c (turn_or_zero (lookup id s.conversation_turns)) s
]

-- A turn whose conversation is missing would be a nil dereference.
pub renew_conversation_turn : ℕ → String → String → Store → Store × Result Error (Unit {0})
renew_conversation_turn now id token s = elim (lookup id s.conversation_turns) [
  | none ↦ (s, err lease_unavailable)
  | some turn ↦
      if not (turn.token == token)
      then (s, err lease_unavailable)
      else elim (lookup id s.conversations) [
        | none ↦ (s, err panic)
        | some c ↦ if not (c.status == "running") then (s, err lease_unavailable) else (
          record s {
            conversation_turns =
                insert id (record turn { lease_until = now + lease }) s.conversation_turns;
          },
          ok tt,
        )
      ]
]

-- `s.messages[conversationID]`
abbrev or_none : Option (List Message) → List Message
or_none none = []
or_none (some ms) = ms

unfoldable pub get_conversation_messages : String → Store → List Message
get_conversation_messages id s = or_none (lookup id s.messages)

-- The loop over the messages, which leaves out nil.
unfoldable pub present : List (Option Message) → List Message
present [] = []
present (none ∷ ms) = present ms
present (some m ∷ ms) = m ∷ present ms

abbrev pub ended : Turn → Turn
ended t = record t { token = ""; lease_until = 0 }

-- An empty loop leaves the map of messages as it is.
pub appended : String → List Message → Store → Dict String (List Message)
appended id [] s = s.messages
appended id (m ∷ ms) s = insert id (get_conversation_messages id s ++ m ∷ ms) s.messages

pub commit_turn : ℕ → String → List (Option Message) → String → Turn → Conversation → Store → Store
unfolding appended
commit_turn now id messages next_status turn c s = record s {
  messages = appended id (present messages) s;
  conversation_turns = insert id (ended turn) s.conversation_turns;
  conversations = insert id (record c { status = next_status; updated_at = now }) s.conversations;
}

pub commit_conversation_turn :
    ℕ → String → String → List (Option Message) → String → Store → Store × Result Error (Unit {0})
unfolding commit_turn
commit_conversation_turn now id token messages next_status s =
    elim (lookup id s.conversation_turns) [
      | none ↦ (s, err lease_unavailable)
      | some turn ↦ elim (lookup id s.conversations) [
        | none ↦ (s, err lease_unavailable)
        | some c ↦
            if not (turn.token == token) || not (c.status == "running")
            then (s, err lease_unavailable)
            else (commit_turn now id messages next_status turn c s, ok tt)
      ]
    ]

pub release_conversation_turn :
    ℕ → String → String → String → Store → Store × Result Error (Unit {0})
unfolding commit_conversation_turn
release_conversation_turn now id token next_status =
    commit_conversation_turn now id token [] next_status

pub update_conversation_runtime_config :
    ℕ → String → String → Store → Store × Result Error (Unit {0})
update_conversation_runtime_config now id config s = elim (lookup id s.conversations) [
  | none ↦ (s, err conversation_not_found)
  | some c ↦ (
    record s {
      conversations =
          insert id (record c { runtime_config_json = config; updated_at = now }) s.conversations;
    },
    ok tt,
  )
]

pub get_conversation : String → Store → Result Error Conversation
get_conversation id s = found_or conversation_not_found (lookup id s.conversations)

abbrev is_listed : String → String → String → Conversation → Bool
is_listed workspace user agent c =
    (c.workspace_id == workspace && c.user_id == user) && (agent == "" || c.agent_id == agent)

-- The latest change first, then the latest start.
abbrev is_newer : Conversation → Conversation → Bool
is_newer c d =
    if c.updated_at == d.updated_at
    then ltb d.started_at c.started_at
    else ltb d.updated_at c.updated_at

pub list_conversations : String → String → String → ℤ → ℤ → Store → List Conversation
list_conversations workspace user agent limit offset s =
    page (sort is_newer (keep (is_listed workspace user agent) (values s.conversations))) limit
      offset

pub touched : ℕ → String → Option Conversation → Dict String Conversation → Dict String Conversation
touched now id none d = d
touched now id (some c) d = insert id (record c { updated_at = now }) d

pub create_message : ℕ → Message → Store → Store
unfolding touched
create_message now m s = record s {
  messages =
      insert m.conversation_id (get_conversation_messages m.conversation_id s ++ m ∷ []) s.messages;
  conversations =
      touched now m.conversation_id (lookup m.conversation_id s.conversations) s.conversations;
}
