-- ===== src/Sealing/Protocol.antt =====
-- What holds of an exchange whatever is called on it.
use Prim.Native.String.{String}
use text.Mathlib.TextEquality.{eq_iff}
use ai2_final_thief_edward_d.Prelude.{
  ◌≡◌, refl, inl, inr, Option, none, some, List, [], ◌∷◌, Result, ok, err, arith, Option-cases,
}
use ai2_final_thief_edward_d.Prelude.Int.{ℤ, eq_ℤ_iff}
use ai2_final_thief_edward_d.Prelude.Dict.{lookup, insert, lookup-insert}
use ai2_final_thief_edward_d.Json.{Json}
use ai2_final_thief_edward_d.Sequence.{int_is_eq}
use ai2_final_thief_edward_d.Sealing.Payload.{SealedTurnPayload}
use ai2_final_thief_edward_d.Sealing.Audit.{SealedRecord, hash_payload, seal}
use ai2_final_thief_edward_d.Sealing.Exchange.{
  Phase, committed, acknowledged, revealed, ExchangeFault, CommitRevealExchange, new_exchange,
  commit, acknowledge, reveal,
}

pub data Call : Type 0 where
  commit_call : ℤ → String → Call
  acknowledge_call : ℤ → Call
  reveal_call : ℤ → SealedRecord → Call

-- What an object keeps of a call that may have raised.
abbrev pub kept :
    CommitRevealExchange → Result ExchangeFault CommitRevealExchange → CommitRevealExchange
kept x (ok y) = y
kept x (err _) = x

module _ (digest : Json → String) where
  pub after : CommitRevealExchange → Call → CommitRevealExchange
  after x (commit_call s h) = kept x (commit x s h)
  after x (acknowledge_call s) = kept x (acknowledge x s)
  after x (reveal_call s r) = kept x (reveal digest x s r)

  pub after_all : CommitRevealExchange → List Call → CommitRevealExchange
  after_all x [] = x
  after_all x (c ∷ cs) = after_all (after x c) cs

  -- What is known of one step: nothing, a commitment, or a commitment and the record revealed
  -- for it, which hashes to it.
  abbrev pub Coherent : Option Phase → Option String → Option SealedRecord → Type 0
  Coherent none none none = Unit
  Coherent (some committed) (some h) none = Unit
  Coherent (some acknowledged) (some h) none = Unit
  Coherent (some revealed) (some h) (some r) = hash_payload digest r.payload ≡ h
  Coherent _ _ _ = ⊥

  abbrev pub IsCoherent : CommitRevealExchange → Type 0
  IsCoherent x =
      (s : ℤ) → Coherent (lookup s x.phase) (lookup s x.committed_hash) (lookup s x.records)

  commit-IsCoherent :
      (x : CommitRevealExchange) (s : ℤ) (h : String)
      → IsCoherent x
      → IsCoherent (kept x (commit x s h))
  unfolding commit
  commit-IsCoherent x s h c k = ground (
    arith,
    c k,
    c s,
    lookup-insert s k h x.committed_hash,
    lookup-insert s k committed x.phase,
    eq_ℤ_iff k s,
  )

  acknowledge-IsCoherent :
      (x : CommitRevealExchange) (s : ℤ) → IsCoherent x → IsCoherent (kept x (acknowledge x s))
  unfolding acknowledge
  acknowledge-IsCoherent x s c k =
      ground (arith, c k, c s, lookup-insert s k acknowledged x.phase, eq_ℤ_iff k s)

  reveal-IsCoherent :
      (x : CommitRevealExchange) (s : ℤ) (r : SealedRecord)
      → IsCoherent x
      → IsCoherent (kept x (reveal digest x s r))
  unfolding reveal
  reveal-IsCoherent x s r c k = elim (Option-cases (lookup s x.committed_hash)) [
    | inl e ↦ ground (arith, c k, c s, e)
    | inr (h, e) ↦ ground (
      arith,
      c k,
      c s,
      e,
      eq_iff (hash_payload digest r.payload) h,
      lookup-insert s k revealed x.phase,
      lookup-insert s k r x.records,
      eq_ℤ_iff k s,
    )
  ]

  after-IsCoherent : (x : CommitRevealExchange) (c : Call) → IsCoherent x → IsCoherent (after x c)
  unfolding after
  after-IsCoherent x (commit_call s h) i = commit-IsCoherent x s h i
  after-IsCoherent x (acknowledge_call s) i = acknowledge-IsCoherent x s i
  after-IsCoherent x (reveal_call s r) i = reveal-IsCoherent x s r i

  after_all-IsCoherent :
      (x : CommitRevealExchange) (cs : List Call) → IsCoherent x → IsCoherent (after_all x cs)
  unfolding after_all
  after_all-IsCoherent x [] i = i
  after_all-IsCoherent x (c ∷ cs) i = after_all-IsCoherent (after x c) cs (after-IsCoherent x c i)

  -- Whatever is called on a new exchange, in any order: a step has a phase exactly if it has a
  -- committed hash, and a record exactly if it is revealed; and every revealed record hashes to
  -- the commitment of its step.
  pub exchange-IsCoherent : (cs : List Call) → IsCoherent (after_all new_exchange cs)
  unfolding lookup
  exchange-IsCoherent cs = after_all-IsCoherent new_exchange cs (λ s. tt)

  after-committed :
      (x : CommitRevealExchange) (c : Call) (s : ℤ) {h : String}
      → lookup s x.committed_hash ≡ some h
      → lookup s (after x c).committed_hash ≡ some h
  unfolding after commit acknowledge reveal
  after-committed x (commit_call t g) s e =
      ground (arith, lookup-insert t s g x.committed_hash, eq_ℤ_iff s t)
  after-committed x (acknowledge_call t) s e = ground arith
  after-committed x (reveal_call t r) s e = ground arith

  -- No later call changes the hash that a step is committed to.
  pub commitment_is_final :
      (x : CommitRevealExchange) (cs : List Call) (s : ℤ) {h : String}
      → lookup s x.committed_hash ≡ some h
      → lookup s (after_all x cs).committed_hash ≡ some h
  unfolding after_all
  commitment_is_final x [] s e = e
  commitment_is_final x (c ∷ cs) s e =
      commitment_is_final (after x c) cs s (after-committed x c s e)

  -- The calls of one turn: the commitment of a sealed payload, its acknowledgement and its reveal
  -- all succeed on a step that is new, and leave it revealed with that record.
  pub turn_is_accepted :
      (x : CommitRevealExchange) (p : SealedTurnPayload)
      → IsCoherent x
      → lookup p.step x.committed_hash ≡ none
      → (y z w : CommitRevealExchange) × (commit x p.step (seal digest p).commit_hash ≡ ok y)
        × (acknowledge y p.step ≡ ok z)
        × (reveal digest z p.step (seal digest p) ≡ ok w)
        × (lookup p.step w.records ≡ some (seal digest p))
  unfolding commit acknowledge reveal seal
  turn_is_accepted x p i e =
      let h = hash_payload digest p in
      let n = p.step in
      let r = seal digest p in
      let y : CommitRevealExchange = record x {
        committed_hash = insert n h x.committed_hash;
        phase = insert n committed x.phase;
      } in
      let z : CommitRevealExchange = record y { phase = insert n acknowledged y.phase } in
      let w : CommitRevealExchange = record z {
        phase = insert n revealed z.phase;
        records = insert n r z.records;
      } in
      let same = (eq_ℤ_iff n n).1 refl in
      let y_phase = lookup-insert n n committed x.phase in
      let z_phase = lookup-insert n n acknowledged y.phase in
      let z_hash = lookup-insert n n h x.committed_hash in
      (
        y,
        z,
        w,
        ground (arith, e),
        ground (arith, same, y_phase),
        ground (arith, same, z_phase, z_hash, eq_iff h h),
        ground (arith, same, lookup-insert n n r z.records),
      )
