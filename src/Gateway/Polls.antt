-- ===== src/Gateway/Polls.antt =====
-- When the gateway finds the opponent's reveal, and what it leaves in the inbox.
use Prim.Native.String.{String}
use ai2_final_thief_edward_d.Prelude.{
  ap, ◌&&◌, ◌≤◌, ℕ, zero, suc, ◌<◌, ◌≡◌, refl, ◌∙◌, Bool, none, some, List, [], ◌∷◌, length, arith,
  ok,
}
use ai2_final_thief_edward_d.Json.{Json, get, is_str, json_eq}
use ai2_final_thief_edward_d.Inbox.{InboxItem, BoundedInbox}
use ai2_final_thief_edward_d.Inbox.Bounds.{IsBounded}
use ai2_final_thief_edward_d.Inbox.Matching.{first_match, remove_first, pop_matching-first}
use ai2_final_thief_edward_d.Gateway.{
  fields_of, envelope_of, is_matching_reveal, is_matching_commitment, prune_consumed_commitment,
  reveal_of, consumed, await_opponent_reveal,
}

-- Without a match nothing is removed.
remove_first-none :
    (p : Json → Bool) (is : List InboxItem) → first_match p is ≡ none → remove_first p is ≡ is
remove_first-none p [] h = refl
remove_first-none p (i ∷ is) h = ground (arith, h, remove_first-none p is)

length-remove_first :
    (p : Json → Bool) (is : List InboxItem) → length (remove_first p is) ≤ length is
length-remove_first p [] = omega arith
length-remove_first p (i ∷ is) = ground (arith, length-remove_first p is)

remove_first-IsBounded :
    (p : Json → Bool) (b : BoundedInbox)
    → IsBounded b
    → IsBounded (record b { queue = remove_first p b.queue })
remove_first-IsBounded p b h = ground (arith, h, length-remove_first p b.queue)

-- A message of a type, with that value of a key in its envelope.
abbrev pub has_type : String → Json → Bool
has_type t m = is_str (get "message_type" (fields_of m)) t

abbrev pub has_value : String → Json → Json → Bool
has_value key v m = json_eq (get key (envelope_of m)) v

-- A reveal for this sub-game and step.
abbrev pub reveals : Json → Json → Json → Bool
reveals sub_game step m =
    has_type "reveal" m && (has_value "sub_game_number" sub_game m && has_value "step" step m)

-- A commitment of the sub-game, the step and the sender of the reveal `m`.
abbrev pub commits_to : Json → Json → Bool
commits_to m c =
    has_type "commitment" c
    && (has_value "sub_game_number" (get "sub_game_number" (envelope_of m)) c
        && (has_value "step" (get "step" (envelope_of m)) c
            && has_value "sender" (get "sender" (envelope_of m)) c))

is_matching_reveal-reveals :
    (sub_game step m : Json) → is_matching_reveal sub_game step m ≡ reveals sub_game step m
unfolding is_matching_reveal
is_matching_reveal-reveals sub_game step m = refl

is_matching_commitment-commits_to :
    (m c : Json) → is_matching_commitment (envelope_of m) c ≡ commits_to m c
unfolding is_matching_commitment
is_matching_commitment-commits_to m c = refl

remove_first-agree :
    (p q : Json → Bool) (is : List InboxItem)
    → ((m : Json) → p m ≡ q m)
    → remove_first p is ≡ remove_first q is
remove_first-agree p q [] h = refl
remove_first-agree p q (i ∷ is) h = rw (h i.message, remove_first-agree p q is h) refl

first_match-agree :
    (p q : Json → Bool) (is : List InboxItem)
    → ((m : Json) → p m ≡ q m)
    → first_match p is ≡ first_match q is
first_match-agree p q [] h = refl
first_match-agree p q (i ∷ is) h = rw (h i.message, first_match-agree p q is h) refl

-- The inbox without the first reveal that matches and without the first commitment to the turn of `m`.
abbrev pub without_turn : (Json → Bool) → BoundedInbox → Json → BoundedInbox
without_turn matches b m = record b {
  queue = remove_first (commits_to m) (remove_first matches b.queue);
}

consumed-ok :
    (b : BoundedInbox) (m : Json)
    → IsBounded b
    → consumed b m
      ≡ ok (record b { queue = remove_first (commits_to m) b.queue }, some (reveal_of m))
unfolding prune_consumed_commitment
consumed-ok b m h =
    rw
      (
        pop_matching-first b (is_matching_commitment (envelope_of m)) h,
        remove_first-agree (is_matching_commitment (envelope_of m)) (commits_to m) b.queue
            (is_matching_commitment-commits_to m),
      )
      refl

module _ (arrive : ℕ → BoundedInbox → BoundedInbox) where
  -- The inbox at poll `j`, if no poll before has taken a message.
  abbrev pub inbox_at : ℕ → ℕ → BoundedInbox → BoundedInbox
  inbox_at k zero b = arrive k b
  inbox_at k (suc j) b = inbox_at (suc k) j (arrive k b)

module _ (arrive : ℕ → BoundedInbox → BoundedInbox)
    (bounded : (k : ℕ) (b : BoundedInbox) → IsBounded b → IsBounded (arrive k b))
    (matches : Json → Bool) where
  -- A poll that finds nothing goes on with the inbox as it is.
  poll_missed :
      (polls k : ℕ) (b : BoundedInbox)
      → IsBounded b
      → first_match matches (arrive k b).queue ≡ none
      → await_opponent_reveal arrive (suc polls) k matches b
        ≡ await_opponent_reveal arrive polls (suc k) matches (arrive k b)
  unfolding await_opponent_reveal
  poll_missed polls k b h e =
      let b' = arrive k b in
      rw (pop_matching-first b' matches (bounded k b h), e, remove_first-none matches b'.queue e)
        refl

  poll_found :
      (polls k : ℕ) (b : BoundedInbox) (m : Json)
      → IsBounded b
      → first_match matches (arrive k b).queue ≡ some m
      → await_opponent_reveal arrive (suc polls) k matches b
        ≡ ok (without_turn matches (arrive k b) m, some (reveal_of m))
  unfolding await_opponent_reveal
  poll_found polls k b m h e =
      let b' = arrive k b in
      rw (pop_matching-first b' matches (bounded k b h), e)
        (consumed-ok (record b' { queue = remove_first matches b'.queue }) m
          (remove_first-IsBounded matches b' (bounded k b h)))

  found_at :
      (polls k j : ℕ) (b : BoundedInbox) (m : Json)
      → IsBounded b
      → j < polls
      → ((i : ℕ) → i < j → first_match matches (inbox_at arrive k i b).queue ≡ none)
      → first_match matches (inbox_at arrive k j b).queue ≡ some m
      → await_opponent_reveal arrive polls k matches b
        ≡ ok (without_turn matches (inbox_at arrive k j b) m, some (reveal_of m))
  found_at zero k j b m h l n e = absurd (omega (arith, l))
  found_at (suc polls) k zero b m h l n e = poll_found polls k b m h e
  found_at (suc polls) k (suc j) b m h l n e =
      poll_missed polls k b h (n 0 (omega arith))
      ∙ found_at polls (suc k) j (arrive k b) m (bounded k b h) (omega (arith, l))
          (λ i x. n (suc i) (omega (arith, x))) e

module _ (arrive : ℕ → BoundedInbox → BoundedInbox)
    (bounded : (k : ℕ) (b : BoundedInbox) → IsBounded b → IsBounded (arrive k b)) where
  -- On an inbox that the server keeps within its bound, the first poll within the budget at which a reveal
  -- for the awaited sub-game and step waits takes the first such reveal and returns its body; it and the
  -- first commitment with the reveal's sub-game, step and sender are gone from the inbox, and everything
  -- else stays in order.
  pub await_opponent_reveal-found :
      (polls j : ℕ) (sub_game step : Json) (b : BoundedInbox) (m : Json)
      → IsBounded b
      → j < polls
      → ((i : ℕ) → i < j → first_match (reveals sub_game step) (inbox_at arrive 0 i b).queue ≡ none)
      → first_match (reveals sub_game step) (inbox_at arrive 0 j b).queue ≡ some m
      → await_opponent_reveal arrive polls 0 (is_matching_reveal sub_game step) b
        ≡ ok (without_turn (reveals sub_game step) (inbox_at arrive 0 j b) m, some (reveal_of m))
  await_opponent_reveal-found polls j sub_game step b m h l n e =
      let p = is_matching_reveal sub_game step in
      let q = reveals sub_game step in
      let agree = is_matching_reveal-reveals sub_game step in
      found_at arrive bounded p polls 0 j b m h l
        (λ i x. first_match-agree p q (inbox_at arrive 0 i b).queue agree ∙ n i x)
        (first_match-agree p q (inbox_at arrive 0 j b).queue agree ∙ e)
      ∙ ap
          (λ queue. ok (
            record (inbox_at arrive 0 j b) { queue = remove_first (commits_to m) queue },
            some (reveal_of m),
          ))
          (remove_first-agree p q (inbox_at arrive 0 j b).queue agree)
