-- ===== src/VirtualDevice/Windows.antt =====
-- The touch click of windows.rs: a short touch of the pad that stands for the touchpad is a click. The
-- rest of windows.rs is in the modules below.
pub mod Click
pub mod Vigem
pub mod Report
pub mod Pressed
pub mod Sent
pub mod Create
use vita_oxi_pad.Base.{
  ℕ, ◌-◌, Bool, true, false, not, ◌&&◌, List, [], ◌∷◌, Option, none, some, ltb, if◌then◌else◌,
}
use vita_oxi_pad.Reports.{MainReport, TouchReport}
use vita_oxi_pad.VirtualDevice.Config.{Config, TouchConfig, touchpad}

-- `!reports.is_empty()`
abbrev pub any_report : List TouchReport → Bool
any_report [] = false
any_report (t ∷ ts) = true

-- `is_touching`, by the two touch configurations.
unfoldable pub touching_by :
    {Tree : Type 0} → Option (TouchConfig Tree) → Option (TouchConfig Tree) → MainReport → Bool
touching_by (some touchpad) rear r = any_report r.front_touch.reports
touching_by _ (some touchpad) r = any_report r.back_touch.reports
touching_by _ _ r = false

-- The two fields of the device that the click is made with; a time is in nanoseconds.
pub record TouchState : Type 0 where
  pub touch_state : Bool
  pub touch_start_time : Option ℕ

-- 150 milliseconds.
abbrev pub click_limit : ℕ
click_limit = 150000000

-- `duration < Duration::from_millis(150)`, if there is a start.
abbrev pub short_since : (now : ℕ) → Option ℕ → Bool
short_since now none = false
short_since now (some start) = ltb (now - start) click_limit

-- The emulation of a click in `send_report`, at a time and by `is_touching`: the touchpad's special
-- button, and the fields after it.
unfoldable pub touch_click : (now : ℕ) (is_touching : Bool) → TouchState → Bool × TouchState
touch_click now is_touching c =
    if is_touching && not c.touch_state
    then (false, record { touch_state = is_touching; touch_start_time = some now })
    else if not is_touching && c.touch_state
    then (
      short_since now c.touch_start_time,
      record { touch_state = is_touching; touch_start_time = none },
    )
    else (false, record c { touch_state = is_touching })

-- The buttons of a series of reports, and the fields after them.
unfoldable pub touch_clicks : List (ℕ × Bool) → TouchState → List Bool × TouchState
unfolding touch_click
touch_clicks [] c = ([], c)
touch_clicks ((now, is_touching) ∷ rest) c =
    let (clicked, c') = touch_click now is_touching c in
    let (clicks, c'') = touch_clicks rest c' in (clicked ∷ clicks, c'')
