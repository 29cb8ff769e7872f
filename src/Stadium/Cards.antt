-- ===== src/Stadium/Cards.antt =====
-- Fouls and cards: `punishFoulPlay`, `yellowCard` and `redCard` of `Stadium` (src/stadium.cpp) and of
-- `Player` (src/player.cpp).
use rcssserver.Base.{
  ◌≡◌, refl, ℕ, ◌+◌, Bool, true, false, not, ◌==◌, ltb, List, [], ◌∷◌, if◌then◌else◌, arith,
}

-- The texts that `sendRefereeAudio` sends with the side and number of the player.
pub data Card : Type 0 where
  yellow red : Card

-- The part of `Player` that the cards change: the bits of `M_state` and the counts.
pub record Standing : Type 0 where
  pub enabled : Bool
  pub stands : Bool
  pub discarded : Bool
  pub yellow_bit : Bool
  pub red_bit : Bool
  pub card_count : ℕ
  pub foul_count : ℕ
  -- the cards announced so far, the latest first
  pub announced : List Card

-- A player after `Player::setEnable`, with no cards.
abbrev pub fresh : Standing
fresh = record {
  enabled = true;
  stands = true;
  discarded = false;
  yellow_bit = false;
  red_bit = false;
  card_count = 0;
  foul_count = 0;
  announced = [];
}

-- `Player::disable`: all bits but those of the cards are cleared.
abbrev disable : Standing → Standing
disable p = record p { enabled = false; stands = false; discarded = false }

-- `Player::discard`.
abbrev discard : Standing → Standing
discard p = if p.stands then (let q = disable p in record q { discarded = not q.discarded }) else p

-- `Player::redCard` and `Player::yellowCard`.
abbrev player_red_card : Standing → Standing
player_red_card p = record (discard p) { yellow_bit = false; red_bit = true; card_count = 2 }

abbrev player_yellow_card : Standing → Standing
player_yellow_card p =
    if p.card_count == 1
    then player_red_card p
    else record p { yellow_bit = true; card_count = p.card_count + 1 }

abbrev announce : Card → Standing → Standing
announce c p = record p { announced = c ∷ p.announced }

-- `Stadium::punishFoulPlay`, `yellowCard` and `redCard` on an existing player.
unfoldable punish_foul : Standing → Standing
punish_foul p = if not p.enabled then p else record p { foul_count = p.foul_count + 1 }

unfoldable show_yellow : Standing → Standing
show_yellow p =
    let q = announce yellow p in
    if not p.enabled
    then p
    else player_yellow_card (if p.card_count == 1 then announce red q else q)

unfoldable show_red : Standing → Standing
show_red p = if not p.enabled then p else player_red_card (announce red p)

pub data Call : Type 0 where
  foul_call yellow_call red_call : Call

unfoldable serve_call : Call → Standing → Standing
unfolding punish_foul show_yellow show_red
serve_call foul_call p = punish_foul p
serve_call yellow_call p = show_yellow p
serve_call red_call p = show_red p

unfoldable pub serve_calls : List Call → Standing → Standing
unfolding serve_call
serve_calls [] p = p
serve_calls (c ∷ cs) p = serve_calls cs (serve_call c p)

abbrev count_red : List Card → ℕ
count_red [] = 0
count_red (yellow ∷ cs) = count_red cs
count_red (red ∷ cs) = 1 + count_red cs

abbrev count_yellow : List Card → ℕ
count_yellow [] = 0
count_yellow (yellow ∷ cs) = 1 + count_yellow cs
count_yellow (red ∷ cs) = count_yellow cs

-- What holds of a player and its cards.
pub record Fair (p : Standing) : Type 0 where
  -- on the pitch until two yellow cards or a red one
  pub plays : p.enabled ≡ ltb p.card_count 2
  pub on_feet : p.stands ≡ p.enabled
  pub sent_off : p.discarded ≡ not p.enabled
  -- at most two, with the bits of the monitors in step
  pub bounded : ltb p.card_count 3 ≡ true
  pub shows_yellow : p.yellow_bit ≡ (p.card_count == 1)
  pub shows_red : p.red_bit ≡ (p.card_count == 2)
  -- one announcement of a red card at the sending-off, and at most two of yellow ones
  pub red_once : count_red p.announced ≡ (if p.card_count == 2 then 1 else 0)
  pub yellow_twice :
      ltb (count_yellow p.announced) (if p.enabled then p.card_count + 1 else 3) ≡ true

serve_call-Fair : (c : Call) (p : Standing) → Fair p → Fair (serve_call c p)
unfolding serve_call punish_foul show_yellow show_red
serve_call-Fair foul_call p h = ground (arith, h)
serve_call-Fair yellow_call p h = ground (arith, h)
serve_call-Fair red_call p h = ground (arith, h)

serve_calls-Fair : (cs : List Call) (p : Standing) → Fair p → Fair (serve_calls cs p)
unfolding serve_calls
serve_calls-Fair [] p h = h
serve_calls-Fair (c ∷ cs) p h = serve_calls-Fair cs (serve_call c p) (serve_call-Fair c p h)

-- Whatever calls of fouls and cards a player gets from its entry on, it plays as long as it has neither
-- two yellow cards nor a red one, the bits that the monitors show are in step with its count of cards,
-- which is at most two, and a red card is announced once, at the sending-off.
pub calls-Fair : (cs : List Call) → Fair (serve_calls cs fresh)
calls-Fair cs = serve_calls-Fair cs fresh (record {
  plays = refl;
  on_feet = refl;
  sent_off = refl;
  bounded = refl;
  shows_yellow = refl;
  shows_red = refl;
  red_once = refl;
  yellow_twice = refl;
})
