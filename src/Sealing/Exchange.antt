-- ===== src/Sealing/Exchange.antt =====
-- The guard of the commit-reveal order: domain/sealing/exchange.py. A method returns the new
-- state, or raises and leaves the object as it was.
use Prim.Native.String.{String}
use text.Mathlib.Text.{◌==◌ as str_eq}
use ai2_final_thief_edward_d.Prelude.{
  Bool, true, false, not, Option, none, some, List, [], ◌∷◌, if◌then◌else◌, Result, ok, err,
}
use ai2_final_thief_edward_d.Prelude.Int.{ℤ}
use ai2_final_thief_edward_d.Prelude.Dict.{Dict, lookup, insert}
use ai2_final_thief_edward_d.Json.{Json}
use ai2_final_thief_edward_d.Sequence.{int_is_eq}
use ai2_final_thief_edward_d.Sealing.Audit.{SealedRecord, hash_payload, sorted_set}

pub data Phase : Type 0 where
  committed acknowledged revealed : Phase

pub data ExchangeFault : Type 0 where
  conflicting_recommit cannot_acknowledge reveal_before_ack duplicate_reveal : ExchangeFault
  payload_mismatch : ExchangeFault

pub record CommitRevealExchange : Type 0 where
  pub phase : Dict ℤ Phase
  pub committed_hash : Dict ℤ String
  pub records : Dict ℤ SealedRecord

abbrev pub new_exchange : CommitRevealExchange
new_exchange = record { phase = []; committed_hash = []; records = [] }

unfoldable pub commit :
    CommitRevealExchange → ℤ → String → Result ExchangeFault CommitRevealExchange
commit x step published = elim (lookup step x.committed_hash) [
  | some h ↦ if not (str_eq h published) then err conflicting_recommit else ok x
  | none ↦ ok (record x {
    committed_hash = insert step published x.committed_hash;
    phase = insert step committed x.phase;
  })
]

abbrev pub is_committed : Option Phase → Bool
is_committed (some committed) = true
is_committed _ = false

abbrev pub is_revealed : Phase → Bool
is_revealed revealed = true
is_revealed _ = false

unfoldable pub acknowledge : CommitRevealExchange → ℤ → Result ExchangeFault CommitRevealExchange
acknowledge x step =
    if not (is_committed (lookup step x.phase))
    then err cannot_acknowledge
    else ok (record x { phase = insert step acknowledged x.phase })

-- `a != self._committed_hash[step]`: a phase is only ever set where a hash is.
abbrev pub hash_differs : String → Option String → Bool
hash_differs h none = true
hash_differs h (some h') = not (str_eq h h')

-- `sorted(d)` for a dict with int keys
abbrev pub keys {ℓ} : {V : Type ℓ} → Dict ℤ V → List ℤ
keys [] = []
keys ((k, _) ∷ d) = k ∷ keys d

abbrev pub present {ℓ} : {A : Type ℓ} → List (Option A) → List A
present [] = []
present (none ∷ xs) = present xs
present (some x ∷ xs) = x ∷ present xs

abbrev pub look_all {ℓ} : {V : Type ℓ} → Dict ℤ V → List ℤ → List (Option V)
look_all d [] = []
look_all d (k ∷ ks) = lookup k d ∷ look_all d ks

unfoldable pub revealed_records : CommitRevealExchange → List SealedRecord
revealed_records x = present (look_all x.records (sorted_set (keys x.records)))

unfoldable pub unrevealed : Dict ℤ Phase → List ℤ
unrevealed [] = []
unrevealed ((s, p) ∷ d) = if not (is_revealed p) then s ∷ unrevealed d else unrevealed d

unfoldable pub incomplete_steps : CommitRevealExchange → List ℤ
unfolding unrevealed
incomplete_steps x = sorted_set (unrevealed x.phase)

module _ (digest : Json → String) where
  unfoldable pub reveal :
      CommitRevealExchange → ℤ → SealedRecord → Result ExchangeFault CommitRevealExchange
  reveal x step r = elim (lookup step x.phase) [
    | none ↦ err reveal_before_ack
    | some committed ↦ err reveal_before_ack
    | some revealed ↦ err duplicate_reveal
    | some acknowledged ↦
        if hash_differs (hash_payload digest r.payload) (lookup step x.committed_hash)
        then err payload_mismatch
        else ok
            (record x { phase = insert step revealed x.phase; records = insert step r x.records })
  ]
