-- ===== src/Referees/Training.antt =====
-- `KeepawayRef::analyse` of src/referee.cpp: the episodes of the keepaway training.
use rcssserver.Base.{
  ℕ, suc, Bool, true, false, not, ◌&&◌, List, [], ◌∷◌, leb, is_negative, if◌then◌else◌,
}
use rcssserver.Mode
use rcssserver.Mode.{Side, left, neutral, right}
use rcssserver.Match.State.{ServerParam, Match, audio, training_text, keepaway_log, emit}
use rcssserver.Match.ModeChange.{is_play_on, reset_field, change_play_mode}
use rcssserver.Referees.View.{View}

-- `TURNOVER_TIME`.
abbrev turnover_time : ℕ
turnover_time = 4

-- `KeepawayRef::logEpisode`.
abbrev log_episode : Match → Match
log_episode m =
    let k = m.keepaway in
    let logged = emit (keepaway_log k.episode k.start_time) m in
    record logged { keepaway = record k { episode = suc k.episode; start_time = m.time } }

abbrev end_episode : Match → Match
end_episode m = reset_field (emit (audio training_text) (log_episode m))

-- The loop over the players that can kick: the first of the right side ends it. The flag is
-- `keeper_poss`, and the result is the flag and whether a taker was found.
unfoldable pub possession : Bool → List Side → Bool × Bool
possession keeper [] = (keeper, false)
possession keeper (left ∷ rest) = possession true rest
possession keeper (neutral ∷ rest) = possession keeper rest
possession keeper (right ∷ rest) = (false, true)

abbrev count_possession : Bool × Bool → Match → Match
count_possession (keeper, taker) m =
    let k = m.keepaway in
    let t = if taker then suc k.take_time else k.take_time in
    record m { keepaway = record k { take_time = if keeper then 0 else t } }

-- `KeepawayRef::analyse`.
unfoldable pub keepaway_analyse : ServerParam → View → Match → Match
keepaway_analyse sp v m =
    if not sp.keep_away_mode
    then m
    else if is_play_on m.playmode
    then (if not v.in_keepaway_area
        then end_episode m
        else if leb turnover_time m.keepaway.take_time
        then end_episode m
        else count_possession (possession false v.kickers) m)
    else if not (is_negative sp.kaway_start) && v.kaway_started
    then change_play_mode sp Mode.play_on m
    else m
