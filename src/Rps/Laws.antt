-- ===== src/Rps/Laws.antt =====
-- A round of the game.
use rtk.Common.{
  ℕ, ◌<◌, ◌≡◌, ◌≢◌, refl, ap, ◌∙◌, Option, none, some, Bool, true, false, [], ◌∷◌, arith, ltb,
  if◌then◌else◌, ◌>>=◌,
}
use rtk.Kernel.State.{max_tasks}
use rtk.Rps.{
  RpsResult, quit, loss, tie, win, RpsThrow, rock, scissors, rps_get_result, RpsPlayerState, active,
  waiting, RpsGame, RpsServer, against, results, is_turned_away, result, play, throw_at,
  play_request, rps_server, set_game,
}

-- Each player's game leads to the other's.
pub record AreMatched (s : RpsServer) (a b : ℕ) : Type 0 where
  pub apart : a ≢ b
  pub first_in : a < max_tasks
  pub second_in : b < max_tasks
  pub first_tid : (s.games a).tid ≡ a
  pub second_tid : (s.games b).tid ≡ b
  pub first_opponent : (s.games a).opponent ≡ some b
  pub second_opponent : (s.games b).opponent ≡ some a
  pub first_plays : (s.games a).state ≡ active
  pub second_plays : (s.games b).state ≡ active

-- The result that the opponent of a player with this result should have.
abbrev mirror : RpsResult → RpsResult
mirror quit = quit
mirror loss = win
mirror tie = tie
mirror win = loss

-- One of the throws is the rock and the other the scissors.
abbrev is_rock_scissors : RpsThrow → RpsThrow → Bool
is_rock_scissors rock scissors = true
is_rock_scissors scissors rock = true
is_rock_scissors _ _ = false

-- The server when a player's throw is noted.
abbrev noted : ℕ → RpsThrow → RpsServer → RpsServer
noted a x s = set_game a (record (s.games a) { choice = x }) s

-- The server when the first player waits.
abbrev thrown : (a : ℕ) → RpsThrow → RpsServer → RpsServer
thrown a x s = set_game a (record ((noted a x s).games a) { state = waiting }) (noted a x s)

-- The server when the second, too, has thrown.
abbrev decided : (a b : ℕ) → RpsThrow → RpsServer → RpsServer
decided a b y s = set_game a (record ((noted b y s).games a) { state = active }) (noted b y s)

results_at :
    (g h : RpsGame) (a b : ℕ) (x y : RpsThrow)
    → g.tid ≡ b
    → g.choice ≡ y
    → h.tid ≡ a
    → h.choice ≡ x
    → results g h ≡ result b (rps_get_result y x) ∷ result a (rps_get_result x y) ∷ []
results_at g h a b x y e1 e2 e3 e4 = rw (e1, e2, e3, e4) refl

-- A request to play by a matched player goes to the opponent's state.
play_is_against :
    (s : RpsServer) (a b : ℕ) (x : RpsThrow) (st : RpsPlayerState)
    → a < max_tasks
    → (s.games a).state ≡ active
    → (s.games a).opponent ≡ some b
    → ((noted a x s).games b).state ≡ st
    → rps_server a (play x) s ≡ some (against st a b (noted a x s))
unfolding rps_server play_request throw_at
play_is_against s a b x st small plays opponent theirs =
    ap (λ t. if t then play_request a x s else none) (the_test small)
    ∙ ap
        (λ t.
          if is_turned_away t
          then some ([], s)
          else (s.games a).opponent >>= λ o. some (throw_at a o x s))
        plays
    ∙ ap (λ (p : Option ℕ). p >>= λ o. some (throw_at a o x s)) opponent
    ∙ ap (λ t. some (against t a b (noted a x s))) theirs
  where
    the_test : a < max_tasks → ltb a max_tasks ≡ true
    the_test h = ground arith

-- Two matched players throw, one after the other: the first is not answered until the second has
-- thrown, then both get the result of the two throws, and both may throw again.
pub round_answers_both :
    (s : RpsServer) (a b : ℕ) (x y : RpsThrow)
    → AreMatched s a b
    → (s' s'' : RpsServer) × (rps_server a (play x) s ≡ some ([], s'))
      × (rps_server b (play y) s'
          ≡ some (result b (rps_get_result y x) ∷ result a (rps_get_result x y) ∷ [], s''))
      × AreMatched s'' a b
unfolding against
round_answers_both s a b x y h = (
  thrown a x s,
  decided a b y (thrown a x s),
  play_is_against s a b x active h.first_in h.first_plays h.first_opponent second_still,
  play_is_against (thrown a x s) b a y waiting h.second_in second_active second_leads first_waits
      ∙ ap (λ rs. some (rs, decided a b y (thrown a x s))) both,
  again,
)
  where
    second_still : ((noted a x s).games b).state ≡ active
    second_still = ground (arith, h.apart, h.second_plays)

    second_active : ((thrown a x s).games b).state ≡ active
    second_active = ground (arith, h.apart, h.second_plays)

    second_leads : ((thrown a x s).games b).opponent ≡ some a
    second_leads = ground (arith, h.apart, h.second_opponent)

    first_waits : ((noted b y (thrown a x s)).games a).state ≡ waiting
    first_waits = ground (arith, h.apart)

    both :
        results ((decided a b y (thrown a x s)).games b) ((decided a b y (thrown a x s)).games a)
        ≡ result b (rps_get_result y x) ∷ result a (rps_get_result x y) ∷ []
    both =
        results_at ((decided a b y (thrown a x s)).games b) ((decided a b y (thrown a x s)).games a)
          a b x y (ground (arith, h.apart, h.second_tid)) (ground (arith, h.apart))
          (ground (arith, h.first_tid)) (ground (arith, h.apart))

    again : AreMatched (decided a b y (thrown a x s)) a b
    again = record {
      apart = h.apart;
      first_in = h.first_in;
      second_in = h.second_in;
      first_tid = ground (arith, h.first_tid);
      second_tid = ground (arith, h.apart, h.second_tid);
      first_opponent = ground (arith, h.apart, h.first_opponent);
      second_opponent = ground (arith, h.apart, h.second_opponent);
      first_plays = ground arith;
      second_plays = ground (arith, h.apart, h.second_plays);
    }
