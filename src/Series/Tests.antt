-- ===== src/Series/Tests.antt =====
-- A series of two sub-games in which the thief stays.
use ai2_final_thief_edward_d.Prelude.{refl, none, arith}
use ai2_final_thief_edward_d.Rules.{direction_eq, legal_move_directions}
use ai2_final_thief_edward_d.Lifecycle.{new_machine}
use ai2_final_thief_edward_d.Series.{run_series}
use ai2_final_thief_edward_d.Series.Completion.{IsFair, Closed, run_series-Closed}
use ai2_final_thief_edward_d.Samples.{nonce_digest, arithmetic, staying, setup}

staying-IsFair : IsFair setup (λ k. staying)
unfolding legal_move_directions direction_eq
staying-IsFair k = (omega arith, λ n s. refl)

run_series-Closed_example :
    Closed 2 (run_series arithmetic nonce_digest 2 setup (λ k. staying) none new_machine)
run_series-Closed_example =
    run_series-Closed arithmetic nonce_digest 2 setup (λ k. staying) (omega arith) staying-IsFair
