-- ===== src/VirtualDevice/Config.antt =====
-- client/packages/vita_virtual_device/src/virtual_config.rs, `set_config` of the two devices, and
-- the touch zones of a report in linux.rs.
pub mod Zones
pub mod Laws
use vita_oxi_pad.Base.{ℕ, ◌/◌, List, [], ◌∷◌, Option, none, some}
use vita_oxi_pad.Reports.{TouchReport}
use vita_oxi_pad.VirtualDevice.Button.{Button}
use vita_oxi_pad.VirtualDevice.Utils.{TriggerConfig, shoulder, trigger}
use vita_oxi_pad.VirtualDevice.Touch.{Point, point, TouchAction, button, TouchZone, Rstar, new_zone}

-- `FRONT_TOUCHPAD_RECT` and `REAR_TOUCHPAD_RECT` of lib.rs.
abbrev pub front_touchpad_rect : Point × Point
front_touchpad_rect = (point 0 0, point 1920 1087)

abbrev pub rear_touchpad_rect : Point × Point
rear_touchpad_rect = (point 0 0, point 1920 887)

pub data TouchConfig (Tree : Type 0) : Type 0 where
  zones : Tree → TouchConfig Tree
  touchpad : TouchConfig Tree

pub data TouchpadSource : Type 0 where
  front rear : TouchpadSource

pub record Config (Tree : Type 0) : Type 0 where
  pub front_touch_config : Option (TouchConfig Tree)
  pub rear_touch_config : Option (TouchConfig Tree)
  pub trigger_config : TriggerConfig
  pub touchpad_source : Option TouchpadSource

-- `Config::default`
unfoldable pub default_config : {Tree : Type 0} → Config Tree
default_config = record {
  front_touch_config = some touchpad;
  rear_touch_config = none;
  trigger_config = shoulder;
  touchpad_source = none;
}

-- The builder that derive_builder makes: each field set or not.
pub record ConfigBuilder (Tree : Type 0) : Type 0 where
  pub front_touch_config : Option (Option (TouchConfig Tree))
  pub rear_touch_config : Option (Option (TouchConfig Tree))
  pub trigger_config : Option TriggerConfig
  pub touchpad_source : Option (Option TouchpadSource)

abbrev pub assign {ℓ} : {A : Type ℓ} → Option A → A → A
assign none old = old
assign (some new) old = new

-- `set_config`, the same code on both platforms. It does not read the builder's touchpad source.
unfoldable pub set_config : {Tree : Type 0} → ConfigBuilder Tree → Config Tree → Config Tree
set_config b c = record c {
  front_touch_config = assign b.front_touch_config c.front_touch_config;
  rear_touch_config = assign b.rear_touch_config c.rear_touch_config;
  trigger_config = assign b.trigger_config c.trigger_config;
}

module _ {Rect Tree : Type 0} (rs : Rstar Rect Tree) where
  abbrev button_zone : Point → Point → Button → TouchZone Rect
  button_zone a b action = new_zone rs a b (some (button action))

  -- Two zones, split at half the pad's width.
  unfoldable pub halves : Point × Point → Button → Button → List (TouchZone Rect)
  unfolding new_zone
  halves (lo, hi) left right =
      button_zone lo (point (hi.x / 2) hi.y) left
      ∷ button_zone (point (hi.x / 2) lo.x) hi right
      ∷ []

  -- Four zones, split at half the pad's width and height.
  unfoldable pub quarters :
      Point × Point → Button → Button → Button → Button → List (TouchZone Rect)
  unfolding new_zone
  quarters (lo, hi) top_left top_right bottom_left bottom_right =
      button_zone lo (point (hi.x / 2) (hi.y / 2)) top_left
      ∷ button_zone (point (hi.x / 2) lo.y) (point hi.x (hi.y / 2)) top_right
      ∷ button_zone (point lo.x (hi.y / 2)) (point (hi.x / 2) hi.y) bottom_left
      ∷ button_zone (point (hi.x / 2) (hi.y / 2)) hi bottom_right
      ∷ []

  unfoldable pub rear_rl2_front_rl3 : Config Tree
  unfolding halves
  rear_rl2_front_rl3 = record {
    rear_touch_config = some (
        zones
          (rs.bulk_load (halves rear_touchpad_rect Button.shoulder_left Button.shoulder_right)));
    front_touch_config =
        some
          (zones (rs.bulk_load (halves front_touchpad_rect Button.thumb_left Button.thumb_right)));
    trigger_config = trigger;
    touchpad_source = none;
  }

  unfoldable pub rear_rl1_front_rl3_vitatriggers_rl2 : Config Tree
  unfolding halves
  rear_rl1_front_rl3_vitatriggers_rl2 = record {
    rear_touch_config =
        some (
          zones
            (rs.bulk_load (halves rear_touchpad_rect Button.trigger_left Button.trigger_right)));
    front_touch_config =
        some
          (zones (rs.bulk_load (halves front_touchpad_rect Button.thumb_left Button.thumb_right)));
    trigger_config = shoulder;
    touchpad_source = none;
  }

  unfoldable pub front_top_rl2_bottom_rl3_rear_touchpad : Config Tree
  unfolding quarters
  front_top_rl2_bottom_rl3_rear_touchpad = record {
    front_touch_config = some (
        zones (
          rs.bulk_load (
            quarters front_touchpad_rect Button.shoulder_left Button.shoulder_right
              Button.thumb_left Button.thumb_right)));
    rear_touch_config = some touchpad;
    trigger_config = trigger;
    touchpad_source = some rear;
  }

  unfoldable pub rear_top_rl2_bottom_rl3_front_touchpad : Config Tree
  unfolding quarters
  rear_top_rl2_bottom_rl3_front_touchpad = record {
    front_touch_config = some touchpad;
    rear_touch_config = some (
        zones (
          rs.bulk_load (
            quarters rear_touchpad_rect Button.shoulder_left Button.shoulder_right Button.thumb_left
              Button.thumb_right)));
    trigger_config = trigger;
    touchpad_source = some front;
  }

  -- The action of the zone at a report, if there are a zone and an action.
  unfoldable pub action_at : Tree → TouchReport → Option TouchAction
  action_at tree touch = elim (rs.locate_at_point tree (point touch.x touch.y)) [
    | none ↦ none
    | some zone ↦ zone.action
  ]

  -- The loop over the reports.
  unfoldable pub push_actions : Tree → List TouchReport → List TouchAction
  push_actions tree [] = []
  push_actions tree (touch ∷ touches) = elim (action_at tree touch) [
    | none ↦ push_actions tree touches
    | some action ↦ action ∷ push_actions tree touches
  ]

  -- `process_touch_reports` of linux.rs.
  unfoldable pub process_touch_reports :
      List TouchReport → Option (TouchConfig Tree) → List TouchAction
  process_touch_reports touches (some (zones tree)) = push_actions tree touches
  process_touch_reports touches _ = []
