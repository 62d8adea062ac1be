-- ===== src/Turn/Fresh.antt =====
-- The three calls of one turn on the commit-reveal guard, on a step that is new to it.
use Prim.Native.String.{String}
use text.Mathlib.TextEquality.{eq_iff}
use ai2_final_thief_edward_d.Prelude.{ℕ, suc, ◌≤◌, ◌≡◌, refl, none, some, ok, arith}
use ai2_final_thief_edward_d.Prelude.Int.{pos, eq_ℤ_iff}
use ai2_final_thief_edward_d.Prelude.Dict.{lookup, insert, lookup-insert}
use ai2_final_thief_edward_d.Json.{Json}
use ai2_final_thief_edward_d.Sequence.{int_is_eq}
use ai2_final_thief_edward_d.Sealing.Audit.{SealedRecord, hash_payload}
use ai2_final_thief_edward_d.Sealing.Exchange.{
  Phase, committed, acknowledged, revealed, CommitRevealExchange, commit, acknowledge, reveal,
}

-- Nothing is known of step `n` and the later ones.
abbrev pub IsFresh : CommitRevealExchange → ℕ → Type 0
IsFresh x n =
    (k : ℕ) → n ≤ k → (lookup (pos k) x.phase ≡ none) × (lookup (pos k) x.committed_hash ≡ none)

-- Step `n` is in phase `p`, committed to `h`, and the later ones are new.
abbrev pub IsAt : CommitRevealExchange → ℕ → Phase → String → Type 0
IsAt x n p h =
    (lookup (pos n) x.phase ≡ some p)
    × (lookup (pos n) x.committed_hash ≡ some h)
    × IsFresh x (suc n)

pub commit-IsAt :
    (x : CommitRevealExchange) (n : ℕ) (h : String)
    → IsFresh x n
    → (y : CommitRevealExchange) × (commit x (pos n) h ≡ ok y) × IsAt y n committed h
unfolding commit
commit-IsAt x n h f =
    let y : CommitRevealExchange = record x {
      committed_hash = insert (pos n) h x.committed_hash;
      phase = insert (pos n) committed x.phase;
    } in
    let same = (eq_ℤ_iff (pos n) (pos n)).1 refl in
    (
      y,
      ground (arith, f n (omega arith)),
      (
        ground (arith, same, lookup-insert (pos n) (pos n) committed x.phase),
        ground (arith, same, lookup-insert (pos n) (pos n) h x.committed_hash),
        λ k l. ground (
          arith,
          f k (omega arith),
          lookup-insert (pos n) (pos k) committed x.phase,
          lookup-insert (pos n) (pos k) h x.committed_hash,
        ),
      ),
    )

pub acknowledge-IsAt :
    (x : CommitRevealExchange) (n : ℕ) {h : String}
    → IsAt x n committed h
    → (y : CommitRevealExchange) × (acknowledge x (pos n) ≡ ok y) × IsAt y n acknowledged h
unfolding acknowledge
acknowledge-IsAt x n a =
    let y : CommitRevealExchange = record x { phase = insert (pos n) acknowledged x.phase } in
    let same = (eq_ℤ_iff (pos n) (pos n)).1 refl in
    (
      y,
      ground (arith, a.0),
      (
        ground (arith, same, lookup-insert (pos n) (pos n) acknowledged x.phase),
        a.1,
        λ k l. ground (arith, a.2 k l, lookup-insert (pos n) (pos k) acknowledged x.phase),
      ),
    )

module _ (digest : Json → String) where
  pub reveal-IsFresh :
      (x : CommitRevealExchange) (n : ℕ) (r : SealedRecord)
      → IsAt x n acknowledged (hash_payload digest r.payload)
      → (y : CommitRevealExchange) × (reveal digest x (pos n) r ≡ ok y) × IsFresh y (suc n)
  unfolding reveal
  reveal-IsFresh x n r a =
      let h = hash_payload digest r.payload in
      let y : CommitRevealExchange = record x {
        phase = insert (pos n) revealed x.phase;
        records = insert (pos n) r x.records;
      } in
      (
        y,
        ground (arith, a.0, a.1, eq_iff h h),
        λ k l. ground (arith, a.2 k l, lookup-insert (pos n) (pos k) revealed x.phase),
      )
