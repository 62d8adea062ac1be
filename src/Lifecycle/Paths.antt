-- ===== src/Lifecycle/Paths.antt =====
-- Where the lifecycle can go: what is final, what is never entered again, what comes first.
use ai2_final_thief_edward_d.Prelude.{
  ℕ, ◌≤◌, ◌<◌, ◌≡◌, refl, ◌⊎◌, inl, Bool, true, false, not, ◌||◌, List, [], ◌∷◌, arith, ok, err,
}
use ai2_final_thief_edward_d.Lifecycle.{
  PeerState, initializing, server_ready, negotiating, signed, series_complete, error, quit,
  EventKind, terms_signed, quit_requested, TransitionEvent, is_terminal, is_empty, resolve,
  terminal_state, moved_to, PeerStateMachine, new_machine, apply, run,
}

-- The stages of a peer's life. The states from `waiting` to `auditing` are one stage.
abbrev pub stage : PeerState → ℕ
stage initializing = 0
stage server_ready = 1
stage negotiating = 2
stage signed = 3
stage series_complete = 5
stage error = 6
stage quit = 7
stage _ = 4

resolve-stage : (s : PeerState) (e : TransitionEvent) → stage s ≤ stage (moved_to s (resolve s e))
unfolding resolve
resolve-stage initializing e = ground arith
resolve-stage _ e = ground arith

-- An accepted event leads to a later stage, unless both states belong to the game itself.
pub resolve-advances :
    (s : PeerState) (e : TransitionEvent) {t : PeerState}
    → resolve s e ≡ ok t
    → (stage s < stage t) ⊎ ((stage s ≡ 4) × (stage t ≡ 4))
unfolding resolve
resolve-advances initializing e h = ground arith
resolve-advances _ e h = ground arith

pub run-stage :
    (m : PeerStateMachine) (es : List TransitionEvent) → stage m.state ≤ stage (run m es).state
unfolding run apply
run-stage m [] = omega arith
run-stage m (e ∷ es) = omega (arith, resolve-stage m.state e, run-stage (apply m e).0 es)

resolve-terminal :
    (s : PeerState) (e : TransitionEvent) → is_terminal s ≡ true → resolve s e ≡ err terminal_state
unfolding resolve
resolve-terminal s e h = ground arith

-- A terminal state is kept whatever events arrive.
run-terminal :
    (m : PeerStateMachine) (es : List TransitionEvent)
    → is_terminal m.state ≡ true
    → (run m es).state ≡ m.state
unfolding run apply
run-terminal m [] h = refl
run-terminal m (e ∷ es) h =
    ground (arith, resolve-terminal m.state e h, run-terminal (apply m e).0 es)

abbrev quits : EventKind → Bool
quits quit_requested = true
quits _ = false

-- Some event of the list is of a kind.
abbrev pub any {ℓ} : {A : Type ℓ} → (A → Bool) → List A → Bool
any p [] = false
any p (x ∷ xs) = p x || any p xs

-- `e` signs the terms: it is TERMS_SIGNED with a detail.
abbrev pub signs : TransitionEvent → Bool
signs e = elim e.kind [ terms_signed ↦ not (is_empty e.detail) | _ ↦ false ]

-- The states that only a peer with signed terms may enter.
abbrev pub is_bound : PeerState → Bool
is_bound initializing = false
is_bound server_ready = false
is_bound negotiating = false
is_bound error = false
is_bound quit = false
is_bound _ = true

resolve-is_bound :
    (s : PeerState) (e : TransitionEvent)
    → is_bound (moved_to s (resolve s e)) ≡ true
    → (is_bound s ≡ true) ⊎ (signs e ≡ true)
unfolding resolve
resolve-is_bound initializing e h = ground arith
resolve-is_bound _ e h = ground arith

run-is_bound :
    (m : PeerStateMachine) (es : List TransitionEvent)
    → is_bound (run m es).state ≡ true
    → (is_bound m.state ≡ true) ⊎ (any signs es ≡ true)
unfolding run apply
run-is_bound m [] h = inl h
run-is_bound m (e ∷ es) h =
    ground (arith, run-is_bound (apply m e).0 es h, resolve-is_bound m.state e)

-- A fresh machine is in a bound state only after an event that signed the terms.
pub signed_before_play :
    (es : List TransitionEvent) → is_bound (run new_machine es).state ≡ true → any signs es ≡ true
signed_before_play es h = ground (arith, run-is_bound new_machine es h)

resolve-error :
    (s : PeerState) (e : TransitionEvent)
    → s ≡ error
    → (moved_to s (resolve s e) ≡ error)
      ⊎ ((moved_to s (resolve s e) ≡ quit) × (quits e.kind ≡ true))
unfolding resolve
resolve-error s e h = ground arith
