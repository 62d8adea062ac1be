-- ===== src/Inbox/Matching.antt =====
-- Taking out the first message that satisfies a predicate.
use ai2_final_thief_edward_d.Prelude.{
  ◌≤◌, ◌<◌, ◌+◌, ◌≡◌, ◌⊎◌, inl, inr, Bool, Option, none, some, List, [], ◌∷◌, ◌++◌, length,
  length-append, arith, ok, if◌then◌else◌, Bool-cases, ◌∙◌,
}
use mathlib.Core.List.{append_assoc, append-nil}
use ai2_final_thief_edward_d.Json.{Json}
use ai2_final_thief_edward_d.Inbox.{
  InboxItem, BoundedInbox, size, put_nowait, requeue, pop_matching,
}
use ai2_final_thief_edward_d.Inbox.Bounds.{IsBounded}

-- The first match, as the specification tells it: the message, and the queue without it.
abbrev pub first_match : (Json → Bool) → List InboxItem → Option Json
first_match p [] = none
first_match p (i ∷ is) = if p i.message then some i.message else first_match p is

abbrev pub remove_first : (Json → Bool) → List InboxItem → List InboxItem
remove_first p [] = []
remove_first p (i ∷ is) = if p i.message then is else i ∷ remove_first p is

put_fits :
    (b : BoundedInbox) (i : InboxItem)
    → (b.capacity ≡ 0) ⊎ (size b < b.capacity)
    → put_nowait b i ≡ ok (record b { queue = b.queue ++ i ∷ [] })
unfolding put_nowait
put_fits b i h = ground arith

abbrev Fits : BoundedInbox → List InboxItem → Type 0
Fits b is = (b.capacity ≡ 0) ⊎ (length b.queue + length is ≤ b.capacity)

abbrev grown : BoundedInbox → InboxItem → BoundedInbox
grown b i = record b { queue = b.queue ++ i ∷ [] }

Fits-next :
    (b : BoundedInbox) (i : InboxItem) (is : List InboxItem)
    → Fits b (i ∷ is)
    → (put_nowait b i ≡ ok (grown b i)) × Fits (grown b i) is
Fits-next b i is h = (put_fits b i (ground arith), ground (arith, length-append b.queue (i ∷ [])))

requeue_found :
    (p : Json → Bool) (b : BoundedInbox) (m : Json) (is : List InboxItem)
    → Fits b is
    → requeue p b (some m) is ≡ ok (record b { queue = b.queue ++ is }, some m)
unfolding requeue
requeue_found p b m [] h = rw append-nil
requeue_found p b m (i ∷ is) h =
    let (put, fits) = Fits-next b i is h in
    rw (put, requeue) (requeue_found p (grown b i) m is fits ∙ (rw append_assoc))

requeue_search :
    (p : Json → Bool) (b : BoundedInbox) (is : List InboxItem)
    → Fits b is
    → requeue p b none is ≡ ok (record b { queue = b.queue ++ remove_first p is }, first_match p is)
unfolding requeue
requeue_search p b [] h = rw append-nil
requeue_search p b (i ∷ is) h =
    let (put, fits) = Fits-next b i is h in
    elim (Bool-cases (p i.message)) [
      | inl e ↦ rw e (requeue_found p b i.message is (ground arith))
      | inr e ↦ rw (e, put) (requeue_search p (grown b i) is fits ∙ (rw append_assoc))
    ]

-- On a bounded inbox `pop_matching` never raises: it returns the first queued message that
-- satisfies the predicate, and leaves every other item in its place and order.
pub pop_matching-first :
    (b : BoundedInbox) (p : Json → Bool)
    → IsBounded b
    → pop_matching b p ≡ ok (record b { queue = remove_first p b.queue }, first_match p b.queue)
unfolding pop_matching
pop_matching-first b p h = requeue_search p (record b { queue = [] }) b.queue (ground arith)
