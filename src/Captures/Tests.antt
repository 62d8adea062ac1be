-- ===== src/Captures/Tests.antt =====
-- A claim and a barrier at concrete cells, and the scores of the book.
use ai2_final_thief_edward_d.Prelude.{◌≡◌, ◌↔◌, ◌⊎◌, true, none, some}
use ai2_final_thief_edward_d.Prelude.Int.{pos}
use ai2_final_thief_edward_d.Grid.{position_eq}
use ai2_final_thief_edward_d.Captures.{resolve_capture}
use ai2_final_thief_edward_d.Captures.Honesty.{captured_iff, response_honest}
use ai2_final_thief_edward_d.Samples.{cell}

captured_iff_example :
    ((resolve_capture
        (cell (pos 1) (pos 1))
        (some (cell (pos 2) (pos 2)))
        (some (cell (pos 1) (pos 1)))).captured
      ≡ true)
    ↔ ((some (cell (pos 1) (pos 1)) ≡ some (cell (pos 1) (pos 1)))
        ⊎ (some (cell (pos 2) (pos 2)) ≡ some (cell (pos 1) (pos 1))))
captured_iff_example =
    captured_iff (cell (pos 1) (pos 1)) (some (cell (pos 2) (pos 2))) (some (cell (pos 1) (pos 1)))

response_honest_example :
    let r = resolve_capture (cell (pos 1) (pos 1)) (some (cell (pos 2) (pos 2))) none in
    (r.response
      ≡ some (record {
        claimed_position = cell (pos 2) (pos 2);
        caught = position_eq (cell (pos 1) (pos 1)) (cell (pos 2) (pos 2));
      }))
    ⊎ ((r.response ≡ none) × (none ≡ some (cell (pos 1) (pos 1))))
response_honest_example = response_honest (cell (pos 1) (pos 1)) (cell (pos 2) (pos 2)) none
