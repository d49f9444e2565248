-- ===== src/Rps.antt =====
-- usr/rps.c and usr/rps.h: RpsGetResult and the loop of RpsServer. The result `none` is undefined behaviour: an index
-- outside `games`, or a null `opponent` read through.
pub mod Laws
mod Tests
use rtk.Common.{
  ℕ, Option, none, some, Bool, true, false, List, [], ◌∷◌, ◌++◌, ltb, ◌==◌, ◌&&◌, ◌||◌,
  if◌then◌else◌, ◌>>=◌,
}
use rtk.Kernel.State.{max_tasks}

pub data RpsResult : Type 0 where
  quit loss tie win : RpsResult

pub data RpsThrow : Type 0 where
  rock paper scissors : RpsThrow

abbrev pub throw_code : RpsThrow → ℕ
throw_code rock = 0
throw_code paper = 1
throw_code scissors = 2

unfoldable pub rps_get_result : (mine theirs : RpsThrow) → RpsResult
rps_get_result mine theirs =
    if throw_code mine == throw_code theirs
    then tie
    else (if (throw_code mine == 0 && throw_code theirs == 2)
          || ltb (throw_code theirs) (throw_code mine)
        then win
        else loss)

-- `enum RpsPlayerState`
pub data RpsPlayerState : Type 0 where
  active waiting left : RpsPlayerState

-- `struct RpsGame` with its player; `opponent` is the index of the opponent's game, `none` for null.
pub record RpsGame : Type 0 where
  pub opponent : Option ℕ
  pub tid : ℕ
  pub choice : RpsThrow
  pub state : RpsPlayerState

pub record RpsServer : Type 0 where
  pub unmatched : Option ℕ
  pub games : ℕ → RpsGame

-- A reply without contents, or with a result.
pub data RpsReply : Type 0 where
  go : (tid : ℕ) → RpsReply
  result : (tid : ℕ) → RpsResult → RpsReply

-- The request; `other` is what the `default` case gets.
pub data RpsRequest : Type 0 where
  signup : RpsRequest
  play : RpsThrow → RpsRequest
  leave : RpsRequest
  other : RpsRequest

abbrev pub set_game : ℕ → RpsGame → RpsServer → RpsServer
set_game i g s = record s { games = λ j. if j == i then g else s.games j }

-- `RPS_REQ_SIGNUP`
unfoldable pub sign_up : ℕ → RpsServer → List RpsReply × RpsServer
sign_up sender s = elim s.unmatched [
  | none ↦ (
    [],
    set_game sender (record (s.games sender) { tid = sender; state = active })
        (record s { unmatched = some sender }),
  )
  | some u ↦
      let s1 = set_game u (record (s.games u) { opponent = some sender }) s in
      let s2 = set_game sender (record (s1.games sender) { opponent = some u }) s1 in
      (
        go (s2.games u).tid ∷ go sender ∷ [],
        set_game sender (record (s2.games sender) { tid = sender; state = active })
            (record s2 { unmatched = none }),
      )
]

-- `! curr->state == RPS_PLAYER_ACTIVE`: `! state` is 0, the code of RPS_PLAYER_ACTIVE, for every
-- other state.
abbrev pub is_turned_away : RpsPlayerState → Bool
is_turned_away active = false
is_turned_away waiting = true
is_turned_away left = true

-- The replies to two players who have thrown.
abbrev pub results : (mine theirs : RpsGame) → List RpsReply
results mine theirs =
    result mine.tid (rps_get_result mine.choice theirs.choice)
    ∷ result theirs.tid (rps_get_result theirs.choice mine.choice)
    ∷ []

-- `switch ( opp->state )`, where the opponent's game is `o`
unfoldable pub against : RpsPlayerState → (sender o : ℕ) → RpsServer → List RpsReply × RpsServer
against active sender o s = ([], set_game sender (record (s.games sender) { state = waiting }) s)
against waiting sender o s =
    let s1 = set_game o (record (s.games o) { state = active }) s in
    (results (s1.games sender) (s1.games o), s1)
against left sender o s = (result sender quit ∷ [], s)

-- `RPS_REQ_PLAY` of a player who is not turned away
unfoldable pub throw_at : (sender o : ℕ) → RpsThrow → RpsServer → List RpsReply × RpsServer
throw_at sender o choice s =
    let s1 = set_game sender (record (s.games sender) { choice = choice }) s in
    against (s1.games o).state sender o s1

unfoldable pub play_request : ℕ → RpsThrow → RpsServer → Option (List RpsReply × RpsServer)
play_request sender choice s =
    if is_turned_away (s.games sender).state
    then some ([], s)
    else (s.games sender).opponent >>= λ o. some (throw_at sender o choice s)

-- `RPS_REQ_QUIT`
unfoldable pub quit_request : ℕ → RpsServer → Option (List RpsReply × RpsServer)
quit_request sender s = do
  o ← (s.games sender).opponent
  let told : List RpsReply = elim (s.games o).state [
    | waiting ↦ result sender quit ∷ []
    | active ↦ []
    | left ↦ []
  ]
  some (told ++ go sender ∷ [], set_game sender (record (s.games sender) { state = left }) s)

-- One round of the loop.
unfoldable pub rps_server : ℕ → RpsRequest → RpsServer → Option (List RpsReply × RpsServer)
rps_server sender req s =
    if ltb sender max_tasks
    then elim req [
      | signup ↦ some (sign_up sender s)
      | play choice ↦ play_request sender choice s
      | leave ↦ quit_request sender s
      | other ↦ some ([], s)
    ]
    else none
