-- ===== src/Rps/Tests.antt =====
-- The theorems about the game at two matched players.
use rtk.Common.{◌≡◌, refl, some, none, [], ◌∷◌, arith, ◌==◌, if◌then◌else◌}
use rtk.Rps.{rock, paper, rps_get_result, active, RpsServer, result, play, rps_server}
use rtk.Rps.Laws.{AreMatched, round_answers_both}

-- Tasks 3 and 4 play.
abbrev pair : RpsServer
pair = record {
  unmatched = none;
  games = λ j. record {
    opponent = some (if j == 3 then 4 else 3);
    tid = j;
    choice = rock;
    state = active;
  };
}

pair-AreMatched : AreMatched pair 3 4
pair-AreMatched = record {
  apart = omega arith;
  first_in = omega arith;
  second_in = omega arith;
  first_tid = refl;
  second_tid = refl;
  first_opponent = refl;
  second_opponent = refl;
  first_plays = refl;
  second_plays = refl;
}

round_answers_both_example :
    (s' s'' : RpsServer) × (rps_server 3 (play rock) pair ≡ some ([], s'))
    × (rps_server 4 (play paper) s'
        ≡ some
            (result 4 (rps_get_result paper rock) ∷ result 3 (rps_get_result rock paper) ∷ [], s''))
    × AreMatched s'' 3 4
round_answers_both_example = round_answers_both pair 3 4 rock paper pair-AreMatched
