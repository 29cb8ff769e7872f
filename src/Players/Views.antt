-- ===== src/Players/Views.antt =====
-- What a player sees at, and how often (`Player::change_view` and `synch_see` of src/player.cpp). The focus
-- point is left out.
use rcssserver.Base.{ℕ, ◌+◌, ◌/◌, Bool, true, false, not, ◌&&◌, if◌then◌else◌}
use rcssserver.Players.Body.{
  ViewWidth, narrow, normal, wide, ViewQuality, low, high, ok_synch_see, PlayerBody, answer,
}

abbrev is_high : ViewQuality → Bool
is_high low = false
is_high high = true

-- The interval and the angle of a width with high quality, as `change_view` sets them.
abbrev pub interval_of : Bool → ViewWidth → ℕ
interval_of false narrow = 2
interval_of false normal = 4
interval_of false wide = 8
interval_of true narrow = 1
interval_of true normal = 2
interval_of true wide = 3

abbrev pub angle_of : Bool → ViewWidth → ℕ
angle_of false narrow = 3
angle_of false normal = 6
angle_of false wide = 12
angle_of true narrow = 4
angle_of true normal = 8
angle_of true wide = 12

abbrev set_width : ViewWidth → PlayerBody → PlayerBody
set_width w b = record b {
  visible_angle = angle_of b.synch_see w;
  visual_send_interval = interval_of b.synch_see w;
  view_width = w;
}

-- The end of `change_view` with a quality. With `synch_see`, low quality returns before the count.
abbrev set_quality : ViewQuality → PlayerBody → PlayerBody
set_quality high b = record b { high_quality = true; change_view_count = b.change_view_count + 1 }
set_quality low b = if b.synch_see then b else record b {
  visual_send_interval = b.visual_send_interval / 2;
  high_quality = false;
  change_view_count = b.change_view_count + 1;
}

unfoldable pub change_view : ViewWidth → ViewQuality → PlayerBody → PlayerBody
change_view w q b = if b.synch_see && not (is_high q) then b else set_quality q (set_width w b)

unfoldable pub change_view_width : ViewWidth → PlayerBody → PlayerBody
change_view_width w b = record (set_width w b) {
  high_quality = true;
  change_view_count = b.change_view_count + 1;
}

-- `Player::synch_see`.
unfoldable pub set_synch_see : PlayerBody → PlayerBody
set_synch_see b = answer ok_synch_see (record b {
  visible_angle = angle_of true b.view_width;
  visual_send_interval = interval_of true b.view_width;
  synch_see = true;
  high_quality = true;
})
