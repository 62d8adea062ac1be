-- ===== src/Inbox.antt =====
-- The bounded message queue: infrastructure/inbox.py of src/thief_peer. Queue operations are
-- atomic, as one handler calls them; what interleaved threads would see is not modelled.
pub mod Bounds
pub mod Matching
mod Tests
use Prim.Native.String.{String}
use ai2_final_thief_edward_d.Prelude.{
  ℕ, ◌≡◌, Bool, true, false, not, ◌&&◌, Option, none, some, List, [], ◌∷◌, ◌++◌, length, ltb, leb,
  if◌then◌else◌, Result, ok, err,
}
use ai2_final_thief_edward_d.Prelude.Dict.{Dict, lookup, insert}
use ai2_final_thief_edward_d.Json.{Json, json_eq, truthy}
use ai2_final_thief_edward_d.Json.Laws.{string_is_eq}

pub record InboxItem : Type 0 where
  pub logical_key : String
  pub message : Json

pub record BoundedInbox : Type 0 where
  pub capacity : ℕ
  pub queue : List InboxItem
  pub seen_by_correlation : List (Json × Json)
  pub seen_by_key : Dict String Json

abbrev pub new_inbox : ℕ → BoundedInbox
new_inbox capacity = record {
  capacity = capacity;
  queue = [];
  seen_by_correlation = [];
  seen_by_key = [];
}

-- `self._queue.qsize()`
abbrev pub size : BoundedInbox → ℕ
size b = length b.queue

-- A dict whose keys are compared by Python's `==`.
unfoldable pub correlated : Json → List (Json × Json) → Option Json
correlated c [] = none
correlated c ((d, m) ∷ l) = if json_eq c d then some m else correlated c l

unfoldable pub correlate : Json → Json → List (Json × Json) → List (Json × Json)
correlate c m [] = (c, m) ∷ []
correlate c m ((d, n) ∷ l) = if json_eq c d then (d, m) ∷ l else (d, n) ∷ correlate c m l

-- `previous is not None and previous != message`
abbrev pub differs : Option Json → Json → Bool
differs none m = false
differs (some p) m = not (json_eq p m)

abbrev pub repeats : Option Json → Json → Bool
repeats none m = false
repeats (some p) m = json_eq p m

unfoldable pub is_duplicate_conflict : BoundedInbox → String → Json → Bool
is_duplicate_conflict b key m = differs (lookup key b.seen_by_key) m

unfoldable pub is_idempotent_replay : BoundedInbox → String → Json → Bool
is_idempotent_replay b key m = repeats (lookup key b.seen_by_key) m

unfoldable pub correlation_conflict : BoundedInbox → Json → Json → Bool
correlation_conflict b c m = differs (correlated c b.seen_by_correlation) m

pub data InboxFull : Type 0 where
  inbox_full : InboxFull

-- `queue.Queue.put_nowait`; a `maxsize` of 0 means no bound.
unfoldable pub is_full : BoundedInbox → Bool
is_full b = ltb 0 b.capacity && leb b.capacity (size b)

unfoldable pub put_nowait : BoundedInbox → InboxItem → Result InboxFull BoundedInbox
unfolding is_full
put_nowait b item =
    if is_full b then err inbox_full else ok (record b { queue = b.queue ++ item ∷ [] })

-- The writes to the two dicts that follow a successful `put_nowait`.
abbrev pub note : String → Json → Json → BoundedInbox → BoundedInbox
note key m c b = record b {
  seen_by_key = insert key m b.seen_by_key;
  seen_by_correlation =
      if truthy c then correlate c m b.seen_by_correlation else b.seen_by_correlation;
}

-- For an id that is a list or a dict the write to the second dict raises TypeError after the put; its
-- callers test for such an id (`admit_turn` before, `admit_audit` after).
unfoldable pub enqueue : BoundedInbox → String → Json → Json → Result InboxFull BoundedInbox
unfolding put_nowait
enqueue b key m c = elim (put_nowait b (record { logical_key = key; message = m })) [
  | err e ↦ err e
  | ok b' ↦ ok (note key m c b')
]

unfoldable pub drain : BoundedInbox → BoundedInbox × List InboxItem
drain b = (record b { queue = [] }, b.queue)

-- The loop of `pop_matching` over the drained items: the match so far, and the queue so far. An
-- item that does not fit again would raise `queue.Full`.
unfoldable pub requeue :
    (Json → Bool)
    → BoundedInbox
    → Option Json
    → List InboxItem
    → Result InboxFull (BoundedInbox × Option Json)
requeue p b found [] = ok (b, found)
requeue p b none (i ∷ is) =
    let keep : Result InboxFull (BoundedInbox × Option Json) = elim (put_nowait b i) [
      | err e ↦ err e
      | ok b' ↦ requeue p b' none is
    ] in
    let take : Result InboxFull (BoundedInbox × Option Json) = requeue p b (some i.message) is in
    if p i.message then take else keep
requeue p b (some m) (i ∷ is) = elim (put_nowait b i) [
  | err e ↦ err e
  | ok b' ↦ requeue p b' (some m) is
]

unfoldable pub pop_matching :
    BoundedInbox → (Json → Bool) → Result InboxFull (BoundedInbox × Option Json)
unfolding requeue drain
pop_matching b p = let (b', items) = drain b in requeue p b' none items
