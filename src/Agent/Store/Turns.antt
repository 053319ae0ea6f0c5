-- ===== src/Agent/Store/Turns.antt =====
-- The turns of a conversation: one at a time, for the holder of the token.
use text.Mathlib.TextEquality.{eq_iff}
use mathlib.Core.List.{append-nil}
use ecommerce_ops_agent.Base.{
  ℕ, ◌+◌, ◌≤◌, ◌≡◌, ◌≢◌, String, ◌⊎◌, List, [], ◌∷◌, ◌++◌, All, Bool, Option, sym, subst, none,
  some, ok, arith, string_eq,
}
use ecommerce_ops_agent.Base.Dict.{lookup, lookup-insert, lookup-insert_ne, lookup-insert_self}
use ecommerce_ops_agent.Agent.Record.{Conversation, Message}
use ecommerce_ops_agent.Agent.Store.{
  Store, Turn, turn_or_zero, next_turn, lease, allowed, claim_turn, claim_conversation_turn,
  renew_conversation_turn, commit_turn, appended, present, commit_conversation_turn,
  release_conversation_turn, update_conversation_runtime_config, create_conversation,
  create_message, touched, get_conversation_messages,
}

pub data Call : Type 0 where
  converse : Conversation → Call
  claim : (id : String) (resume : Bool) → Call
  renew : (id token : String) → Call
  commit : (id token : String) (messages : List (Option Message)) (next_status : String) → Call
  release : (id token next_status : String) → Call
  configure : (id config : String) → Call
  say : Message → Call

unfoldable pub step : Store → ℕ × Call → Store
step s (now, converse c) = create_conversation c s
step s (now, claim id resume) = (claim_conversation_turn now id resume s).0
step s (now, renew id token) = (renew_conversation_turn now id token s).0
step s (now, commit id token messages next) =
    (commit_conversation_turn now id token messages next s).0
step s (now, release id token next) = (release_conversation_turn now id token next s).0
step s (now, configure id config) = (update_conversation_runtime_config now id config s).0
step s (now, say m) = create_message now m s

unfoldable pub run : Store → List (ℕ × Call) → Store
unfolding step
run s [] = s
run s (c ∷ cs) = run (step s c) cs

abbrev pub status_at : Option Conversation → Option String
status_at none = none
status_at (some c) = some c.status

-- The conversation runs, and `turn` is its turn.
abbrev pub Running : String → Turn → Store → Type 0
Running id turn s =
    (status_at (lookup id s.conversations) ≡ some "running")
    × (lookup id s.conversation_turns ≡ some turn)

-- A call that does not present the turn's token and does not start the conversation anew.
abbrev pub IsForeign : String → Turn → Call → Type 0
IsForeign id turn (converse c) = id ≢ c.id
IsForeign id turn (renew k presented) = (id ≢ k) ⊎ (turn.token ≢ presented)
IsForeign id turn (commit k presented messages next) = (id ≢ k) ⊎ (turn.token ≢ presented)
IsForeign id turn (release k presented next) = (id ≢ k) ⊎ (turn.token ≢ presented)
IsForeign id turn _ = Unit {0}

abbrev pub ForeignBefore : String → Turn → ℕ × Call → Type 0
ForeignBefore id turn (now, c) = (now ≤ turn.lease_until) × IsForeign id turn c

running_not_active : ◌≢◌ {A = String} "running" "active"
running_not_active = ground (arith, eq_iff "running" "active")

running_not_awaiting : ◌≢◌ {A = String} "running" "awaiting_approval"
running_not_awaiting = ground (arith, eq_iff "running" "awaiting_approval")

claim_refused :
    (now : ℕ) (id : String) (resume : Bool) (turn : Turn) (s : Store)
    → now ≤ turn.lease_until
    → Running id turn s
    → (claim_conversation_turn now id resume s).0 ≡ s
unfolding claim_conversation_turn claim_turn allowed
claim_refused now id resume turn s before h =
    ground (arith, running_not_active, running_not_awaiting)

claim_other :
    (now : ℕ) (id k : String) (resume : Bool) (turn : Turn) (s : Store)
    → id ≢ k
    → Running id turn s
    → Running id turn (claim_conversation_turn now k resume s).0
unfolding claim_conversation_turn claim_turn
claim_other now id k resume turn s other h = (
  grind (arith, λ (c : Conversation). lookup-insert_ne id k c s.conversations other),
  grind (arith, λ (t : Turn). lookup-insert_ne id k t s.conversation_turns other),
)

renew_foreign :
    (now : ℕ) (id k presented : String) (turn : Turn) (s : Store)
    → (id ≢ k) ⊎ (turn.token ≢ presented)
    → Running id turn s
    → Running id turn (renew_conversation_turn now k presented s).0
unfolding renew_conversation_turn
renew_foreign now id k presented turn s f h =
    (ground arith, grind (arith, λ (t : Turn). lookup-insert id k t s.conversation_turns))

commit_foreign :
    (now : ℕ) (id k presented next : String) (ms : List (Option Message)) (turn : Turn) (s : Store)
    → (id ≢ k) ⊎ (turn.token ≢ presented)
    → Running id turn s
    → Running id turn (commit_conversation_turn now k presented ms next s).0
unfolding commit_conversation_turn commit_turn
commit_foreign now id k presented next ms turn s f h = (
  grind (arith, λ (c : Conversation). lookup-insert id k c s.conversations),
  grind (arith, λ (t : Turn). lookup-insert id k t s.conversation_turns),
)

configure-Running :
    (now : ℕ) (id k config : String) (turn : Turn) (s : Store)
    → Running id turn s
    → Running id turn (update_conversation_runtime_config now k config s).0
unfolding update_conversation_runtime_config
configure-Running now id k config turn s h =
    (grind (arith, λ (c : Conversation). lookup-insert id k c s.conversations), ground arith)

say-Running :
    (now : ℕ) (id : String) (m : Message) (turn : Turn) (s : Store)
    → Running id turn s
    → Running id turn (create_message now m s)
unfolding create_message touched
say-Running now id m turn s h =
    (grind (arith, λ (c : Conversation). lookup-insert id m.conversation_id c s.conversations), h.1)

step-Running :
    (id : String) (turn : Turn) (s : Store) (c : ℕ × Call)
    → ForeignBefore id turn c
    → Running id turn s
    → Running id turn (step s c)
unfolding step create_conversation release_conversation_turn
step-Running id turn s (now, converse c) f h =
    (ground (arith, lookup-insert id c.id c s.conversations), h.1)
step-Running id turn s (now, claim k resume) f h = elim (string_eq.dec id k) [
  | yes same ↦
      subst (Running id turn)
        (sym (
          subst (λ j. (claim_conversation_turn now j resume s).0 ≡ s) same
            (claim_refused now id resume turn s f.0 h)))
        h
  | no other ↦ claim_other now id k resume turn s other h
]
step-Running id turn s (now, renew k presented) f h = renew_foreign now id k presented turn s f.1 h
step-Running id turn s (now, commit k presented ms next) f h =
    commit_foreign now id k presented next ms turn s f.1 h
step-Running id turn s (now, release k presented next) f h =
    commit_foreign now id k presented next [] turn s f.1 h
step-Running id turn s (now, configure k config) f h = configure-Running now id k config turn s h
step-Running id turn s (now, say m) f h = say-Running now id m turn s h

-- While a turn's lease runs, the conversation stays with it: no other call, from any number of
-- workers and in any order, takes the turn, ends it or changes the state of the conversation.
pub run-Running :
    (id : String) (turn : Turn) (s : Store) (cs : List (ℕ × Call))
    → All (ForeignBefore id turn) cs
    → Running id turn s
    → Running id turn (run s cs)
unfolding run
run-Running id turn s [] f h = h
run-Running id turn s (c ∷ cs) f h =
    run-Running id turn (step s c) cs f.1 (step-Running id turn s c f.0 h)

pub claim-Running :
    (now : ℕ) (id token : String) (resume : Bool) (s : Store)
    → (claim_conversation_turn now id resume s).1 ≡ ok token
    → Running id
        (next_turn now (turn_or_zero (lookup id s.conversation_turns)))
        (claim_conversation_turn now id resume s).0
unfolding claim_conversation_turn claim_turn
claim-Running now id token resume s done = (
  grind (arith, λ (c : Conversation). lookup-insert_self id c s.conversations),
  grind (arith, λ (t : Turn). lookup-insert_self id t s.conversation_turns),
)

pub claim_token :
    (now : ℕ) (id token : String) (resume : Bool) (s : Store)
    → (claim_conversation_turn now id resume s).1 ≡ ok token
    → (next_turn now (turn_or_zero (lookup id s.conversation_turns))).token ≡ token
unfolding claim_conversation_turn claim_turn
claim_token now id token resume s done = ground arith

holder_commits :
    (now : ℕ) (id : String) (ms : List (Option Message)) (next : String) (turn : Turn) (s : Store)
    → Running id turn s
    → (commit_conversation_turn now id turn.token ms next s).1 ≡ ok tt
unfolding commit_conversation_turn
holder_commits now id ms next turn s h = ground arith

get-appended :
    (id : String) (ms : List Message) (s : Store)
    → get_conversation_messages id (record s { messages = appended id ms s })
      ≡ get_conversation_messages id s ++ ms
unfolding appended get_conversation_messages
get-appended id [] s = sym (append-nil _)
get-appended id (m ∷ ms) s =
    rw (lookup-insert_self id (get_conversation_messages id s ++ m ∷ ms) s.messages)

holder_appends :
    (now : ℕ) (id : String) (ms : List (Option Message)) (next : String) (turn : Turn) (s : Store)
    → Running id turn s
    → get_conversation_messages id (commit_conversation_turn now id turn.token ms next s).0
      ≡ get_conversation_messages id s ++ present ms
unfolding commit_conversation_turn commit_turn get_conversation_messages
holder_appends now id ms next turn s h = grind (arith, get-appended id (present ms) s)

-- After a claim, and any calls of others before its lease ends: every further claim leaves the store
-- as it is, and the holder of the token can commit, which appends the messages that are not nil, each
-- once and in their order, to those of the conversation.
pub turn_exclusive :
    (now later : ℕ) (id token next : String) (resume again : Bool) (s : Store)
    (cs : List (ℕ × Call)) (ms : List (Option Message))
    → (claim_conversation_turn now id resume s).1 ≡ ok token
    → All (ForeignBefore id (next_turn now (turn_or_zero (lookup id s.conversation_turns)))) cs
    → later ≤ now + lease
    → let t = run (claim_conversation_turn now id resume s).0 cs in
      ((claim_conversation_turn later id again t).0 ≡ t)
      × ((commit_conversation_turn later id token ms next t).1 ≡ ok tt)
      × (get_conversation_messages id (commit_conversation_turn later id token ms next t).0
          ≡ get_conversation_messages id t ++ present ms)
turn_exclusive now later id token next resume again s cs ms done foreign before =
    let turn = next_turn now (turn_or_zero (lookup id s.conversation_turns)) in
    let t = run (claim_conversation_turn now id resume s).0 cs in
    let h = run-Running id turn _ cs foreign (claim-Running now id token resume s done) in
    let same = claim_token now id token resume s done in
    (
      claim_refused later id again turn t before h,
      rw same at (holder_commits later id ms next turn t h),
      rw same at (holder_appends later id ms next turn t h),
    )
