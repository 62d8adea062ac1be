-- ===== src/Sequence/Order.antt =====
-- What the guard lets through: for each sub-game, commitment and reveal in turn, step by step.
use ai2_final_thief_edward_d.Prelude.{
  ℕ, zero, suc, ◌≡◌, refl, ◌⊎◌, inl, Bool, true, false, not, ◌&&◌, Option, none, some, List, [],
  ◌∷◌, arith, if◌then◌else◌, length, ap, sym, ◌∙◌,
}
use ai2_final_thief_edward_d.Prelude.Int.{ℤ, pos, negsuc, ◌+ℤ◌, ◌-ℤ◌, eq_ℤ, eq_ℤ_iff, eq_of_parts}
use ai2_final_thief_edward_d.Prelude.Dict.{lookup, lookup-insert}
use ai2_final_thief_edward_d.Sequence.{
  int_is_eq, MessageType, commitment, reveal, is_aux, Cursor, new_cursor, SequenceFault, check_core,
  check_cursor, SequenceTracker, cursor_of, check_and_advance,
}

-- A turn message as the guard sees it.
pub record Delivery : Type 0 where
  pub sub_game : ℤ
  pub step : ℤ
  pub mtype : MessageType

-- The order that the protocol prescribes, `n` messages of it, from a cursor on.
abbrev pub script : ℕ → Cursor → List (ℤ × MessageType)
script zero c = []
script (suc n) c =
    if eq_ℤ c.phase (negsuc 0)
    then (c.step, commitment) ∷ script n (record c { phase = pos 0 })
    else (c.step, reveal) ∷ script n (record { step = c.step +ℤ pos 1; phase = negsuc 0 })

abbrev kept : Option SequenceFault → Bool
kept none = true
kept (some _) = false

-- The core messages of sub-game `g` that the guard accepts, in the order of arrival.
pub accepted : ℤ → SequenceTracker → List Delivery → List (ℤ × MessageType)
accepted g t [] = []
accepted g t (d ∷ ds) =
    let (t', fault) = check_and_advance t d.sub_game d.step d.mtype in
    let rest = accepted g t' ds in
    if eq_ℤ g d.sub_game && (kept fault && not (is_aux d.mtype))
    then (d.step, d.mtype) ∷ rest
    else rest

abbrev HasPhase : Cursor → Type 0
HasPhase c = (c.phase ≡ negsuc 0) ⊎ (c.phase ≡ pos 0)

-- One message at one cursor: an accepted core message is the next of the script, and any other
-- message leaves the cursor as it was.
abbrev Follows : Cursor → ℤ → MessageType → Cursor × Option SequenceFault → Type 0
Follows c step t (c', fault) =
    HasPhase c'
    × ((kept fault && not (is_aux t) ≡ true) → (n : ℕ) → script (suc n) c ≡ (step, t) ∷ script n c')
    × ((kept fault && not (is_aux t) ≡ false) → c' ≡ c)

check_core-Follows :
    (c : Cursor) (step : ℤ) (t : MessageType)
    → HasPhase c
    → is_aux t ≡ false
    → Follows c step t (check_core c step t)
unfolding check_core ◌-ℤ◌
check_core-Follows c step commitment h a = ground (arith, eq_of_parts step c.step)
check_core-Follows c step reveal h a = ground (arith, eq_of_parts step c.step)
check_core-Follows c step _ h a = cc

check_cursor-Follows :
    (c : Cursor) (step : ℤ) (t : MessageType)
    → HasPhase c
    → Follows c step t (check_cursor c step t)
unfolding check_cursor
check_cursor-Follows c step commitment h = check_core-Follows c step commitment h refl
check_cursor-Follows c step reveal h = check_core-Follows c step reveal h refl
check_cursor-Follows c step _ h = ground arith

-- One call moves the cursor of its own sub-game and no other.
pub cursor_of-check :
    (t : SequenceTracker) (g h step : ℤ) (m : MessageType)
    → cursor_of (check_and_advance t h step m).0 g
      ≡ (if eq_ℤ g h then (check_cursor (cursor_of t h) step m).0 else cursor_of t g)
unfolding check_and_advance
cursor_of-check t g h step m =
    ground (arith, lookup-insert h g (check_cursor (cursor_of t h) step m).0 t)

pub fault-check :
    (t : SequenceTracker) (h step : ℤ) (m : MessageType)
    → (check_and_advance t h step m).1 ≡ (check_cursor (cursor_of t h) step m).1
unfolding check_and_advance
fault-check t h step m = refl

same_sub_game :
    (t : SequenceTracker) (g h step : ℤ) (m : MessageType)
    → eq_ℤ g h ≡ true
    → HasPhase (cursor_of t g)
    → Follows
        (cursor_of t g)
        step
        m
        (cursor_of (check_and_advance t h step m).0 g, (check_and_advance t h step m).1)
same_sub_game t g h step m e p =
    rw (cursor_of-check, e, fault-check, ← (eq_ℤ_iff g h).0 e)
      (check_cursor-Follows (cursor_of t g) step m p)

other_sub_game :
    (t : SequenceTracker) (g h step : ℤ) (m : MessageType)
    → eq_ℤ g h ≡ false
    → cursor_of (check_and_advance t h step m).0 g ≡ cursor_of t g
other_sub_game t g h step m e = rw (cursor_of-check, e)

script-cons :
    (c c' : Cursor) (x : ℤ × MessageType) (xs : List (ℤ × MessageType))
    → ((n : ℕ) → script (suc n) c ≡ x ∷ script n c')
    → xs ≡ script (length xs) c'
    → x ∷ xs ≡ script (length (x ∷ xs)) c
script-cons c c' x xs h e = ap (◌∷◌ x) e ∙ sym (h (length xs))

-- An accepted core message of the sub-game goes to the front of the script.
accepted-script :
    (g : ℤ) (t : SequenceTracker) (ds : List Delivery)
    → HasPhase (cursor_of t g)
    → accepted g t ds ≡ script (length (accepted g t ds)) (cursor_of t g)
unfolding accepted
accepted-script g t [] h = refl
accepted-script g t (d ∷ ds) h =
    go (eq_ℤ g d.sub_game) (kept fault && not (is_aux d.mtype)) refl refl
      (accepted-script g (check_and_advance t d.sub_game d.step d.mtype).0 ds)
  where
    t' : SequenceTracker
    t' = (check_and_advance t d.sub_game d.step d.mtype).0

    fault : Option SequenceFault
    fault = (check_and_advance t d.sub_game d.step d.mtype).1

    go :
        (same core : Bool)
        → eq_ℤ g d.sub_game ≡ same
        → (kept fault && not (is_aux d.mtype)) ≡ core
        → (HasPhase (cursor_of t' g)
            → accepted g t' ds ≡ script (length (accepted g t' ds)) (cursor_of t' g))
        → (if same && core then (d.step, d.mtype) ∷ accepted g t' ds else accepted g t' ds)
          ≡ script
              (length
                (if same && core then (d.step, d.mtype) ∷ accepted g t' ds else accepted g t' ds))
              (cursor_of t g)
    go true true e k ih =
        let (phase, next, same) = same_sub_game t g d.sub_game d.step d.mtype e h in
        script-cons (cursor_of t g) (cursor_of t' g) (d.step, d.mtype) (accepted g t' ds) (next k)
          (ih phase)
    go true false e k ih =
        let (phase, next, same) = same_sub_game t g d.sub_game d.step d.mtype e h in
        rw (same k) at (ih phase)
    go false core e k ih =
        let same = other_sub_game t g d.sub_game d.step d.mtype e in rw same at (ih (rw same h))

-- Whatever arrives, and however the sub-games are interleaved, the core messages that a fresh
-- guard accepts for one sub-game are exactly the first ones of the protocol's script: the
-- commitment of step 0, the reveal of step 0, the commitment of step 1, and so on.
pub accepted_in_order :
    (g : ℤ) (ds : List Delivery) → accepted g [] ds ≡ script (length (accepted g [] ds)) new_cursor
unfolding cursor_of lookup
accepted_in_order g ds = accepted-script g [] ds (inl refl)
