-- ===== src/Middleware/Locks/Steps.antt =====
-- Every step of `keyedLocks` keeps its locks in agreement with the threads.
use ecommerce_ops_agent.Base.{
  ℕ, ◌≡◌, ◌≤◌, refl, String, true, false, some, ◌==◌, string_eq, nat_eq, arith, Option-cases,
  Bool-cases, inl, inr, subst, ◌∙◌, ◌-◌,
}
use ecommerce_ops_agent.Base.Dict.{lookup, erase, lookup-insert, lookup-erase}
use ecommerce_ops_agent.Middleware.Locks.Slots.{get, get-set_ne, get-sum}
use ecommerce_ops_agent.Middleware.Locks.{
  KeyedLock, Phase, idle, waiting, holding, leaving, State, Action, enter, take, unlock, leave,
  at_address, write, move, entered, left, taken, released, step,
}
use ecommerce_ops_agent.Middleware.Locks.Counting.{
  place, counts, holds, refs_of, locked_of, Agrees, Placed, Counted, moved-Agrees, moved-Placed,
  entered-Counted, moved-Counted,
}

taken-Counted :
    (t a : ℕ) (key : String) (s u : State)
    → get t s.threads ≡ some (waiting key a)
    → Counted s
    → taken t key a s ≡ some u
    → Counted u
taken-Counted t a key s u stands c took = elim (Bool-cases (at_address a s).locked) [
  | inl e ↦ absurd (ground (arith, e, took))
  | inr e ↦
      let lock : KeyedLock = record (at_address a s) { locked = true } in
      subst Counted (ground (arith, e, took)) (
        moved-Counted t a key (waiting key a) (holding key a) lock s stands refl refl refl
          (λ _. refl) (ground (arith, e)) (λ b other. ground (arith, other)) c)
]

released-Counted :
    (t a : ℕ) (key : String) (s : State)
    → get t s.threads ≡ some (holding key a)
    → Counted s
    → Counted (released t key a s)
unfolding Counted Agrees
released-Counted t a key s stands (placed, refs, locks) =
    let lock : KeyedLock = record (at_address a s) { locked = false } in
    let once = get-sum (holds a) t (holding key a) s.threads stands in
    moved-Counted t a key (holding key a) (leaving key a) lock s stands refl refl refl (λ _. refl)
      (ground (arith, locks a, once)) (λ b other. ground (arith, other)) (placed, refs, locks)

counts_one : (p : Phase) (key : String) (a : ℕ) → place p ≡ some (key, a) → counts a p ≡ 1
counts_one idle key a at = ground (arith, at)
counts_one (waiting k b) key a at = ground (arith, at)
counts_one (holding k b) key a at = ground (arith, at)
counts_one (leaving k b) key a at = ground (arith, at)

left-Counted :
    (t a : ℕ) (key : String) (s : State)
    → get t s.threads ≡ some (leaving key a)
    → Counted s
    → Counted (left t key a s)
unfolding Counted Placed Agrees
left-Counted t a key s stands (placed, refs, locks) =
    let old = leaving key a in
    let lock : KeyedLock = record (at_address a s) { refs = (at_address a s).refs - 1 } in
    let v = move t idle (write a lock s) in
    let before : 1 ≤ (at_address a s).refs =
      ground (arith, refs a, get-sum (counts a) t old s.threads stands) in
    let counted =
      moved-Agrees refs_of counts t a old idle lock s stands (ground (arith, before))
        (λ b other. ground (arith, other)) refs in
    let locked = moved-Agrees locked_of holds t a old idle lock s stands refl (λ b _. refl) locks in
    elim (Bool-cases ((at_address a s).refs - 1 == 0)) [
      | inr e ↦
          let kept : Counted v = (
            moved-Placed t old idle s v stands refl (λ k b at. ground (arith, at))
                (λ u p k b _ standing at. placed u p k b standing at),
            counted,
            locked,
          ) in
          let same : v ≡ left t key a s = ground (arith, e) in subst Counted same kept
      | inl e ↦
          let w : State = record v { locks = erase key s.locks } in
          let kept : Counted w = (
            moved-Placed t old idle s w stands refl (λ k b at. ground (arith, at))
                (λ u p k b other standing at.
                  let moved = get-set_ne t u idle s.threads other in
                  let positive = get-sum (counts a) u p v.threads (moved ∙ standing) in
                  elim (string_eq.dec k key) [
                    | no differs ↦
                        ground
                          (arith, differs, placed u p k b standing at, lookup-erase k key s.locks)
                    | yes same ↦
                        let own : lookup key s.locks ≡ some b =
                          subst (λ j. lookup j s.locks ≡ some b) same
                            (placed u p k b standing at) in
                        let at_a : b ≡ a = ground (arith, own, placed t old key a stands refl) in
                        absurd (
                          ground (
                            arith,
                            e,
                            positive,
                            counted a,
                            lookup-insert a a lock s.heap,
                            counts_one p k a (subst (λ c. place p ≡ some (k, c)) at_a at),
                          ))
                  ]),
            counted,
            locked,
          ) in
          let same : w ≡ left t key a s = ground (arith, e) in subst Counted same kept
    ]

-- One step, whatever thread takes it.
enter-Counted :
    (t : ℕ) (key : String) (p : Phase) (s u : State)
    → get t s.threads ≡ some p
    → Counted s
    → step (enter t key) s ≡ some u
    → Counted u
unfolding step
enter-Counted t key idle s u stands c stepped =
    let same : entered t key s ≡ u = ground (arith, stands, stepped) in
    subst Counted same (entered-Counted t key s stands c)
enter-Counted t key (waiting _ _) s u stands c stepped = absurd (ground (arith, stands, stepped))
enter-Counted t key (holding _ _) s u stands c stepped = absurd (ground (arith, stands, stepped))
enter-Counted t key (leaving _ _) s u stands c stepped = absurd (ground (arith, stands, stepped))

move_on-Counted :
    (t : ℕ) (p : Phase) (s u : State)
    → get t s.threads ≡ some p
    → Counted s
    → (step (take t) s ≡ some u → Counted u)
      × (step (unlock t) s ≡ some u → Counted u)
      × (step (leave t) s ≡ some u → Counted u)
unfolding step
move_on-Counted t idle s u stands c = (
  λ stepped. absurd (ground (arith, stands, stepped)),
  λ stepped. absurd (ground (arith, stands, stepped)),
  λ stepped. absurd (ground (arith, stands, stepped)),
)
move_on-Counted t (waiting key a) s u stands c = (
  λ stepped. taken-Counted t a key s u stands c (ground (arith, stands, stepped)),
  λ stepped. absurd (ground (arith, stands, stepped)),
  λ stepped. absurd (ground (arith, stands, stepped)),
)
move_on-Counted t (holding key a) s u stands c = (
  λ stepped. absurd (ground (arith, stands, stepped)),
  λ stepped.
      let same : released t key a s ≡ u = ground (arith, stands, stepped) in
      subst Counted same (released-Counted t a key s stands c),
  λ stepped. absurd (ground (arith, stands, stepped)),
)
move_on-Counted t (leaving key a) s u stands c = (
  λ stepped. absurd (ground (arith, stands, stepped)),
  λ stepped. absurd (ground (arith, stands, stepped)),
  λ stepped.
      let same : left t key a s ≡ u = ground (arith, stands, stepped) in
      subst Counted same (left-Counted t a key s stands c),
)

pub step-Counted : (action : Action) (s u : State) → Counted s → step action s ≡ some u → Counted u
unfolding step
step-Counted (enter t key) s u c stepped = elim (Option-cases (get t s.threads)) [
  | inl e ↦ absurd (ground (arith, e, stepped))
  | inr (p, e) ↦ enter-Counted t key p s u e c stepped
]
step-Counted (take t) s u c stepped = elim (Option-cases (get t s.threads)) [
  | inl e ↦ absurd (ground (arith, e, stepped))
  | inr (p, e) ↦ (move_on-Counted t p s u e c).0 stepped
]
step-Counted (unlock t) s u c stepped = elim (Option-cases (get t s.threads)) [
  | inl e ↦ absurd (ground (arith, e, stepped))
  | inr (p, e) ↦ (move_on-Counted t p s u e c).1 stepped
]
step-Counted (leave t) s u c stepped = elim (Option-cases (get t s.threads)) [
  | inl e ↦ absurd (ground (arith, e, stepped))
  | inr (p, e) ↦ (move_on-Counted t p s u e c).2 stepped
]
