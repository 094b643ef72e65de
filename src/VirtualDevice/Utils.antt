-- ===== src/VirtualDevice/Utils.antt =====
-- client/packages/vita_virtual_device/src/virtual_utils.rs, and the axis values of a direction from
-- linux.rs.
pub mod Laws
use vita_oxi_pad.Base.{Bool, true, false, List, [], ◌∷◌, ◌++◌, if◌then◌else◌}
use vita_oxi_pad.Base.Int.{ℤ, pos, negsuc}
use vita_oxi_pad.Reports.{ButtonsData}
use vita_oxi_pad.VirtualDevice.Button.{Button, DpadDirection}

-- `TriggerConfig` of virtual_config.rs.
pub data TriggerConfig : Type 0 where
  shoulder trigger : TriggerConfig

-- The match on (up, down, left, right).
unfoldable pub direction : Bool → Bool → Bool → Bool → DpadDirection
direction true false false false = DpadDirection.north
direction true false true false = DpadDirection.north_west
direction true false false true = DpadDirection.north_east
direction false true false false = DpadDirection.south
direction false true true false = DpadDirection.south_west
direction false true false true = DpadDirection.south_east
direction false false true false = DpadDirection.west
direction false false false true = DpadDirection.east
direction _ _ _ _ = DpadDirection.none

unfoldable pub compute_dpad_direction : ButtonsData → DpadDirection
unfolding direction
compute_dpad_direction b = direction b.up b.down b.left b.right

-- `filter_map` with the closure of `get_pressed_buttons`.
unfoldable pub keep_pressed : List (Bool × Button) → List Button
keep_pressed [] = []
keep_pressed ((pressed, b) ∷ bs) = if pressed then b ∷ keep_pressed bs else keep_pressed bs

-- The pairs that are pushed for the triggers.
unfoldable pub trigger_pairs : ButtonsData → TriggerConfig → List (Bool × Button)
trigger_pairs r shoulder = (r.lt, Button.shoulder_left) ∷ (r.rt, Button.shoulder_right) ∷ []
trigger_pairs r trigger = (r.lt, Button.trigger_left) ∷ (r.rt, Button.trigger_right) ∷ []

unfoldable pub get_pressed_buttons : ButtonsData → TriggerConfig → List Button
get_pressed_buttons r config = keep_pressed (
    ((r.circle, Button.circle)
      ∷ (r.square, Button.square)
      ∷ (r.cross, Button.cross)
      ∷ (r.triangle, Button.triangle)
      ∷ (r.start, Button.options)
      ∷ (r.select, Button.share)
      ∷ (r.ps, Button.ps_button)
      ∷ [])
    ++ trigger_pairs r config)

-- linux.rs: (x, y) of the hat.
unfoldable pub dpad_direction_to_axis_values : DpadDirection → ℤ × ℤ
dpad_direction_to_axis_values DpadDirection.north = (pos 0, negsuc 0)
dpad_direction_to_axis_values DpadDirection.north_east = (pos 1, negsuc 0)
dpad_direction_to_axis_values DpadDirection.east = (pos 1, pos 0)
dpad_direction_to_axis_values DpadDirection.south_east = (pos 1, pos 1)
dpad_direction_to_axis_values DpadDirection.south = (pos 0, pos 1)
dpad_direction_to_axis_values DpadDirection.south_west = (negsuc 0, pos 1)
dpad_direction_to_axis_values DpadDirection.west = (negsuc 0, pos 0)
dpad_direction_to_axis_values DpadDirection.north_west = (negsuc 0, negsuc 0)
dpad_direction_to_axis_values DpadDirection.none = (pos 0, pos 0)
