-- ===== src/Agent/Store/Commits.antt =====
-- A token is good for one commit: the number of a conversation's turn only grows.
use ecommerce_ops_agent.Base.{
  ℕ, ◌+◌, ◌≤◌, ◌≡◌, ◌≢◌, ◌⊎◌, inl, inr, refl, sym, ap, ◌∙◌, subst, String, ◌<>◌, List, [], ◌∷◌,
  Option, some, ok, err, arith, string_eq, Bool,
}
use ecommerce_ops_agent.Base.Decimal.{decimal}
use ecommerce_ops_agent.Base.Decimal.Reading.{
  reading, reading-append, reading-decimal, reading-dash, reading-nil,
}
use ecommerce_ops_agent.Base.Dict.{Dict, lookup, insert, lookup-insert, lookup-insert_self}
use ecommerce_ops_agent.Agent.Record.{Message}
use ecommerce_ops_agent.Agent.Store.{
  Store, Turn, turn_or_zero, turn_token, next_turn, lease, claim_turn, claim_conversation_turn,
  renew_conversation_turn, commit_turn, commit_conversation_turn, release_conversation_turn,
  update_conversation_runtime_config, create_conversation, create_message, touched, ended,
  lease_unavailable,
}
use ecommerce_ops_agent.Agent.Store.Turns.{
  Call, converse, claim, renew, commit, release, configure, say, step, run, claim-Running,
  claim_token,
}

token_number : (now n : ℕ) → reading 0 (turn_token now n) ≡ n
token_number now n =
    reading-append 0 "turn-" (decimal now <> ("-" <> decimal n))
    ∙ reading-dash (reading 0 "turn-") (decimal now) (decimal n)
    ∙ reading-decimal n

-- The turns after a call: as they were, or one of them has changed.
abbrev Turned : (Turn → Turn) → String → Dict String Turn → Dict String Turn → Type 0
Turned f k d e = (e ≡ d) ⊎ (e ≡ insert k (f (turn_or_zero (lookup k d))) d)

abbrev extended : ℕ → Turn → Turn
extended until t = record t { lease_until = until }

claim-Turned :
    (now : ℕ) (id : String) (resume : Bool) (s : Store)
    → Turned
        (next_turn now)
        id
        s.conversation_turns
        (claim_conversation_turn now id resume s).0.conversation_turns
unfolding claim_conversation_turn claim_turn
claim-Turned now id resume s = ground arith

renew-Turned :
    (now : ℕ) (id token : String) (s : Store)
    → Turned
        (extended (now + lease))
        id
        s.conversation_turns
        (renew_conversation_turn now id token s).0.conversation_turns
unfolding renew_conversation_turn
renew-Turned now id token s = ground arith

commit-Turned :
    (now : ℕ) (id token next : String) (ms : List (Option Message)) (s : Store)
    → Turned ended id s.conversation_turns
        (commit_conversation_turn now id token ms next s).0.conversation_turns
unfolding commit_conversation_turn commit_turn
commit-Turned now id token next ms s = ground arith

-- The turn of the conversation has come to a number. `spent` tells that its token, if any, is of a
-- later one.
abbrev Reached : ℕ → ℕ → Turn → Type 0
Reached n least t =
    (n ≤ t.revision) × ((t.token ≡ "") ⊎ ((least ≤ t.revision) × (reading 0 t.token ≡ t.revision)))

Has : String → ℕ → ℕ → Dict String Turn → Type 0
Has id n least d = (t : Turn) × (lookup id d ≡ some t) × Reached n least t

next_turn-Reached :
    (now n least : ℕ) (t : Turn)
    → least ≤ n + 1
    → Reached n least t
    → Reached n least (next_turn now t)
next_turn-Reached now n least t below (past, _) =
    (omega (arith, past), inr (omega (arith, past, below), token_number now (t.revision + 1)))

Turned-Has :
    (f : Turn → Turn) (id k : String) (n least : ℕ) (d e : Dict String Turn)
    → ((t : Turn) → Reached n least t → Reached n least (f t))
    → Turned f k d e
    → Has id n least d
    → Has id n least e
unfolding Has
Turned-Has f id k n least d e closed (inl same) h = subst (Has id n least) (sym same) h
Turned-Has f id k n least d e closed (inr moved) (t, held, reached) =
    subst (Has id n least) (sym moved) (elim (string_eq.dec id k) [
      | yes same ↦ (
        f t,
        ground (arith, lookup-insert id k (f (turn_or_zero (lookup k d))) d, held, same),
        closed t reached,
      )
      | no differs ↦ (
        t,
        ground (arith, lookup-insert id k (f (turn_or_zero (lookup k d))) d, held, differs),
        reached,
      )
    ])

configured :
    (now : ℕ) (id config : String) (s : Store)
    → (update_conversation_runtime_config now id config s).0.conversation_turns
      ≡ s.conversation_turns
unfolding update_conversation_runtime_config
configured now id config s = ground arith

module _ (id : String) (n least : ℕ) (below : least ≤ n + 1) where
  step-Has :
      (s : Store) (c : ℕ × Call)
      → Has id n least s.conversation_turns
      → Has id n least (step s c).conversation_turns
  unfolding step create_conversation release_conversation_turn update_conversation_runtime_config
      create_message touched
  step-Has s (now, converse c) h = h
  step-Has s (now, claim k resume) h =
      Turned-Has (next_turn now) id k n least _ _ (λ t. next_turn-Reached now n least t below)
        (claim-Turned now k resume s) h
  step-Has s (now, renew k token) h =
      Turned-Has (extended (now + lease)) id k n least _ _ (λ t r. r) (renew-Turned now k token s) h
  step-Has s (now, commit k token ms next) h =
      Turned-Has ended id k n least _ _ (λ t r. (r.0, inl refl))
        (commit-Turned now k token next ms s) h
  step-Has s (now, release k token next) h =
      Turned-Has ended id k n least _ _ (λ t r. (r.0, inl refl))
        (commit-Turned now k token next [] s) h
  step-Has s (now, configure k config) h =
      subst (Has id n least) (sym (configured now k config s)) h
  step-Has s (now, say m) h = h

  run-Has :
      (s : Store) (cs : List (ℕ × Call))
      → Has id n least s.conversation_turns
      → Has id n least (run s cs).conversation_turns
  unfolding run
  run-Has s [] h = h
  run-Has s (c ∷ cs) h = run-Has (step s c) cs (step-Has s c h)

number : Store → String → ℕ
number s id = (turn_or_zero (lookup id s.conversation_turns)).revision + 1

claim-Has :
    (now : ℕ) (id token : String) (resume : Bool) (s : Store)
    → (claim_conversation_turn now id resume s).1 ≡ ok token
    → (reading 0 token ≡ number s id)
      × Has id
          (number s id)
          (number s id)
          (claim_conversation_turn now id resume s).0.conversation_turns
unfolding Has number
claim-Has now id token resume s done =
    let old = turn_or_zero (lookup id s.conversation_turns) in
    let counted = token_number now (old.revision + 1) in
    (
      subst (λ t. reading 0 t ≡ number s id) (claim_token now id token resume s done) counted,
      (
        next_turn now old,
        (claim-Running now id token resume s done).1,
        (omega arith, inr (omega arith, counted)),
      ),
    )

commit_found :
    (now : ℕ) (id token next : String) (ms : List (Option Message)) (s : Store) (t : Turn)
    → lookup id s.conversation_turns ≡ some t
    → (commit_conversation_turn now id token ms next s).1 ≡ ok tt
    → (t.token ≡ token)
      × (lookup id (commit_conversation_turn now id token ms next s).0.conversation_turns
          ≡ some (ended t))
unfolding commit_conversation_turn commit_turn
commit_found now id token next ms s t held done = (
  ground (arith, held, done),
  ground (arith, held, done, lookup-insert_self id (ended t) s.conversation_turns),
)

commit_refused :
    (now : ℕ) (id token next : String) (ms : List (Option Message)) (s : Store) (t : Turn)
    → lookup id s.conversation_turns ≡ some t
    → t.token ≢ token
    → commit_conversation_turn now id token ms next s ≡ (s, err lease_unavailable)
unfolding commit_conversation_turn
commit_refused now id token next ms s t held differs = ground (arith, held, differs)

empty_unread : (token : String) (n : ℕ) → reading 0 token ≡ n + 1 → token ≢ ""
empty_unread token n counted empty =
    let zeroth : reading 0 "" ≡ n + 1 = subst (λ t. reading 0 t ≡ n + 1) empty counted in
    omega (arith, zeroth, reading-nil 0)

-- A token that a claim gave is good for one commit: when a commit under it went through after any
-- calls, then after any further calls, claims and re-creations of the conversation among them, another
-- commit under it is refused and changes nothing.
pub commit_once :
    (now then later : ℕ) (id token next after : String) (resume : Bool) (s : Store)
    (ms again : List (Option Message)) (cs ds : List (ℕ × Call))
    → (claim_conversation_turn now id resume s).1 ≡ ok token
    → let u = run (claim_conversation_turn now id resume s).0 cs in
      (commit_conversation_turn then id token ms next u).1 ≡ ok tt
      → let v = run (commit_conversation_turn then id token ms next u).0 ds in
        commit_conversation_turn later id token again after v ≡ (v, err lease_unavailable)
unfolding Has number
commit_once now then later id token next after resume s ms again cs ds done committed =
    let n = number s id in
    let c = (claim_conversation_turn now id resume s).0 in
    let u = run c cs in
    let w = (commit_conversation_turn then id token ms next u).0 in
    let (counted, has) = claim-Has now id token resume s done in
    let named =
      empty_unread token (turn_or_zero (lookup id s.conversation_turns)).revision counted in
    let (t, held, (past, fine)) = run-Has id n n (omega arith) c cs has in
    let (own, closed) = commit_found then id token next ms u t held committed in
    let (x, still, (_, later_on)) =
      run-Has id n (n + 1) (omega arith) w ds (ended t, closed, (past, inl refl)) in
    commit_refused later id token after again (run w ds) x still (λ e. elim later_on [
      | inl empty ↦ named (sym e ∙ empty)
      | inr (grown, read) ↦ omega (arith, grown, ap (reading 0) e, read, counted)
    ])
