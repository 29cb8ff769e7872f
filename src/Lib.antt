-- ===== src/Lib.antt =====
-- A model of the referee, the clock, the penalty shoot-out, the commands, substitutions and hearing
-- of players, the synchronous timer, and the coach language and its messages, of the RoboCup Soccer
-- Simulator server (rcssserver), with the theorems that make them correct.
--
-- The program. `Stadium` (src/stadium.cpp) holds a match: time, play mode, teams, ball. Once a cycle
-- `Stadium::step` advances the clock and lets each referee (the subclasses of `Referee`,
-- src/referee.cpp) look at the match. A referee acts by calling `Stadium::changePlayMode`, which
-- in turn tells every referee the new mode (`playModeChange`). `TimeRef` ends the halves and the
-- match; `PenaltyRef` starts, runs and ends the shoot-out. Between the cycles the commands of the
-- players call `kickTaken`, `tackleTaken`, `ballCaught` and `ballPunched` of `Stadium`, which ask all
-- referees in turn. What is said goes to all listeners, and each player hears at the end of the cycle
-- what its `AudioSender` (src/audio.cpp) has kept (sent by `Stadium`).
-- A `Team` (src/team.cpp) counts the types of its players; coach and trainer (src/coach.cpp) substitute
-- them. What an online coach says is a text of the coach language, which the grammar in rcss/clang reads
-- into a message by calls of `MsgBuilder`; the message waits in a queue that each cycle looks at.
--
-- The files.
--   Base, Base/Tests, Base/Lists  the library names that all files share, Boolean tests on numbers,
--     numbers with a sign, lists.
--   Mode  `Side` and `PlayMode` (src/types.h), and the phases of the shoot-out.
--   Match/State  the state as one record: `Match` has the fields of `Stadium` and one record for
--     each referee with a state (src/referee.h); `Team` has the fields of src/team.h that the
--     shoot-out counts with; `ServerParam` has the parameters that are read (src/serverparam.h).
--     Messages of the referee and the moves of players and ball are a log of `Effect` values.
--   Match/ModeChange  `Stadium::changePlayMode`, `Stadium::placeBall` and the `playModeChange` of each
--     referee, in the order in which `Stadium::Stadium` creates them. Match/Frame: what they change.
--   Shootout/Scoring  `penalty_init`, `penalty_score`, `penalty_miss`, `penalty_foul`,
--     `penalty_check_score`, and the calls of `Stadium` and `Team` in them.
--   Shootout/Events  `kickTaken`, `ballCaught`, `ballPunched`, `tackleTaken` of `PenaltyRef`.
--   Shootout/Analyse  `PenaltyRef::analyse`, `startPenaltyShootout`, `analyseImpl`, `handleTimeout`,
--     `handleTimer`.
--   Shootout/Outcome, Tally, Invariant, Rulings, Cycle, Run, Verdict  the invariant of the shoot-out,
--     kept by each operation and by every sequence of them, and whether its verdict is right.
--   Referees/View  what the other referees measure in a cycle.
--   Referees/Awards  `awardFreeKick`, `awardGoalKick`, `awardDropBall`, `awardKickIn`,
--     `awardCornerKick` of `Referee`.
--   Referees/Faults, Kicks, Ball, Training  the `analyse` of `OffsideRef`, `IllegalDefenseRef`,
--     `CatchRef` and `FoulRef`; of `FreeKickRef`; of `BallStuckRef` and `TouchRef`; of `KeepawayRef`.
--   Referees/Catching, BackPass  what `CatchRef` does at kicks, touches, catches and punches, and when a
--     catch is a back pass.
--   Referees/Taking, DoubleKick, Retaken  what `FreeKickRef` does at kicks and touches: players that kick
--     twice, and goal kicks that are taken again.
--   Referees/Touching, TouchFrame, Strongest, Indirect, SecondKick  what `TouchRef` does at kicks and
--     touches: who touched the ball last, and when an indirect free kick may be shot at the goal.
--   Referees/Steady, FaultsSteady, KicksSteady, Goals, Over, Waits, Possession  what each does to the
--     clock, the score and a finished match, and how a stopped match goes on.
--   Shootout/Steady  the same of the shoot-out.
--   Clock/Halves  `TimeRef::analyse`, `Stadium::callHalfTime`, `Stadium::kickOff`.
--   Clock/Step  the part of `Stadium::step` that advances the clock and calls all referees in turn.
--   Clock/Others, Bounds, Cycles, Score, KickOff  the theorems on the clock and the score.
--   Clang/Syntax  the values of the coach language (rcss/clang/region.h, cond.h, clangaction.h,
--     coach_lang_comp.h, rule.h, clangutil.h).
--   Clang/Builder  `MsgBuilder` (rcss/clang/clangmsgbuilder.cpp): Machine is the stack of items, the
--     versions and the errors; Regions, Actions, Conditions, Rules, Messages are its operations, each
--     with the name of its function.
--   Clang/Reading  the calls that the semantic actions of rcss/clang/coach_lang_parser.ypp make for a
--     value (Parts, Rules); Fits is what a value must meet; Yields, Points, Acts, Conds, Nested, Whole
--     are what each part leaves on the stack; Message and Faults are the theorems.
--   Coach  the messages of `OnlineCoach` (src/coach.cpp): State, the handler of a parsed message (Say),
--     `check_message_queue` (Queue), and the theorems (Budget, Events, Freeform).
--   Roster  the players and types of `Team` (src/team.cpp: State, Team), the commands that change them
--     (src/coach.cpp: Change), and the cards, disconnections and reconnections (src/player.cpp,
--     src/stadium.cpp: Presence); Guards is the ways through the commands; Counts, Bounds, Session,
--     GoalieCounts, Goalies are the theorems.
--   Referees/Offside, OffsideLaw, OffsideCalls  the handlers of `OffsideRef`: the offside line against the
--     law, and against whom offside is called.
--   Referees/Fouls  `Referee::checkFoul`, `FoulRef::tackleTaken`, `IllegalDefenseRef::kickTaken`.
--   Stadium/Actions, Offside  what `Stadium` does at a kick, tackle, catch, punch or touch, through all
--     referees. Stadium/Cards: fouls and cards of a player (also src/player.cpp).
--   Audio/State, Ears, Cycle  `AudioSenderPlayerv8` and the hear capacity and the commands `ear` and
--     `attentionto` of `Player`. Audio/Getting, Order, Capacity: in which order and how much it hears.
--   Players/Body, Commands, Tackles, Views  the commands of `Player` (src/player.cpp) with its flags, cycles,
--     counts and legs (src/leg.cpp), and what they do to the match. Players/Runs: commands, steps and
--     the rest of the server in any order; Limits, Held, Release: what a player may do, and when.
--   Timer/Ticks  the loop of `SyncTimer::run` (src/synctimer.cpp), as one function for each of its parts.
--     Timer/Alternate, Rate: how often it lets the simulator step and the clients think.
--   Scenarios  tests, and the theorems at concrete matches.
--
-- Numbers. Counters and times are natural numbers; the code has `int`, and counts up from 0 once a
-- cycle or a kick, so that an overflow is out of reach of a match. `half_time` and the timer of the
-- shoot-out can be negative in the code, and have a sign here. No definition needs fuel.
--
-- What is an argument of the model. Positions are `double` in the code. What the shoot-out measures
-- on them (`penalty_check_players`, `crossGoalLine`, the ball outside the pitch) and the draws of
-- `drand( 0, 1 ) < 0.5` are the record `Sight`; whether a catch is in the penalty area and whether a
-- tackle is a foul are arguments of the handlers. What the other referees measure is the record
-- `View`, with one value for a cycle of each test; where they put the ball is named, not computed.
--
-- In the coach language a `double` is its bit pattern, which the builder only stores; a name is the
-- list of its bytes; a thrown `BuilderErr` is an error result; the values of a message are shared in
-- the code and not written after they are built, so that sharing is not modelled. The text of a value
-- is the order in which the grammar calls the builder for it; a set of numbers is written from its
-- last entry. The actions of the grammar test the sizes of names and of freeform texts first, and
-- `YYERROR` is the error `parse_error`. A message of a coach has the type that its class returns.
-- `Player::recoverAll`, which sets stamina and hearing, is counted; of the bits of a player's state
-- that a substitution clears those of the cards are apart and the others one number. What the entry
-- of a message reads as when it has been erased is a parameter. The counts of player types are
-- functions of the type, with none for -1; they are natural numbers, and one is taken off only for a
-- type that is counted. The accelerations of kicks, which `TouchRef` compares, are natural numbers,
-- and `dashCount()` of a kicker is an argument.
--
-- The `x` of positions, which `OffsideRef` only compares, are natural numbers from any origin, with the
-- centre line as one of them. What `checkFoul` measures of each player and its draws are the record
-- `Seen`. The order of the keys of the multimap of messages, which is that of addresses, is a parameter.
-- A time of -1 in `OffsideRef` is `none`. What a command of a player measures and draws (whether the ball is
-- kickable, within reach of a catch or a tackle, and the draws) are records of arguments; places are
-- whole numbers in any unit, and angles of view are sixths of `visible_angle`. An event `others` puts any
-- match in the place of the one before, for what other players and the referees do.
--
-- What is not modelled. The motion of players and ball, stamina, the neck, arm and focus point of a
-- player, the illegal-defence marks on players, the lexer and the tables of the generated parsers,
-- the printing of messages, the command `change_player_types`, the audio of older clients and of
-- coaches, the commands of the trainer that move objects, the standard timer, the parsers of files,
-- the network, the serializers and the logs.
pub mod Base
pub mod Mode
pub mod Match
pub mod Shootout
pub mod Clock
pub mod Referees
pub mod Clang
pub mod Coach
pub mod Roster
pub mod Stadium
pub mod Timer
pub mod Audio
pub mod Players
mod Scenarios
