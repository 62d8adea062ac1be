-- ===== src/Lifecycle/History.antt =====
-- The log records every attempt, and the accepted ones lead to the current state.
use ai2_final_thief_edward_d.Prelude.{
  ℕ, suc, ◌+◌, ◌≡◌, refl, List, [], ◌∷◌, ◌++◌, map, length, arith, ap, sym, ◌∙◌,
}
use mathlib.Core.List.{append_assoc, append-nil, map-append}
use ai2_final_thief_edward_d.Lifecycle.{
  PeerState, initializing, TransitionEvent, resolve, moved_to, target_of, reason_of, is_ok,
  TransitionLog, PeerStateMachine, new_machine, apply, run,
}

-- One entry, the `n`-th, made in state `s`.
abbrev pub Records : ℕ → PeerState → TransitionLog → Type 0
Records n s l =
    let r = resolve s l.event in
    (l.index ≡ n)
    × (l.at_seq ≡ n)
    × (l.from_state ≡ s)
    × (l.to_state ≡ target_of r)
    × (l.accepted ≡ is_ok r)
    × (l.reason ≡ reason_of r)

-- The entries from the `n`-th on lead from `s` to `t`.
abbrev pub Leads : ℕ → PeerState → List TransitionLog → PeerState → Type 0
Leads n s [] t = s ≡ t
Leads n s (l ∷ ls) t = Records n s l × Leads (suc n) (moved_to s (resolve s l.event)) ls t

Leads-append :
    (n : ℕ) (s t u : PeerState) (ls : List TransitionLog) (l : TransitionLog)
    → Leads n s ls t
    → Records (n + length ls) t l
    → moved_to t (resolve t l.event) ≡ u
    → Leads n s (ls ++ l ∷ []) u
Leads-append n s t u [] l h r e = ground arith
Leads-append n s t u (k ∷ ls) l h r e = (h.0, Leads-append (suc n) _ t u ls l h.1 (ground arith) e)

abbrev pub events : List TransitionLog → List TransitionEvent
events = map (λ l. l.event)

apply-Leads :
    (s : PeerState) (m : PeerStateMachine) (e : TransitionEvent)
    → Leads 0 s m.history m.state
    → Leads 0 s (apply m e).0.history (apply m e).0.state
unfolding apply
apply-Leads s m e h = Leads-append 0 s m.state _ m.history _ h (ground arith) refl

run-Leads :
    (s : PeerState) (m : PeerStateMachine) (es : List TransitionEvent)
    → Leads 0 s m.history m.state
    → Leads 0 s (run m es).history (run m es).state
unfolding run
run-Leads s m [] h = h
run-Leads s m (e ∷ es) h = run-Leads s (apply m e).0 es (apply-Leads s m e h)

apply-events :
    (m : PeerStateMachine) (e : TransitionEvent)
    → events (apply m e).0.history ≡ events m.history ++ e ∷ []
unfolding apply
apply-events m e = map-append (λ (l : TransitionLog). l.event) m.history _

run-events :
    (m : PeerStateMachine) (es : List TransitionEvent)
    → events (run m es).history ≡ events m.history ++ es
unfolding run
run-events m [] = sym (append-nil (events m.history))
run-events m (e ∷ es) =
    run-events (apply m e).0 es
    ∙ ap (λ ls. ls ++ es) (apply-events m e)
    ∙ append_assoc (events m.history) (e ∷ []) es

-- After any events the log of a fresh machine holds one entry for each of them, in order, numbered
-- from 0; each entry records the state it was made in and what `resolve` answered there; and the
-- entries lead from INITIALIZING to the current state.
run-history :
    (es : List TransitionEvent)
    → let m = run new_machine es in (events m.history ≡ es) × Leads 0 initializing m.history m.state
run-history es = (run-events new_machine es, run-Leads initializing new_machine es refl)
