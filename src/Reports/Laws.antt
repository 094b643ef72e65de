-- ===== src/Reports/Laws.antt =====
-- Which pads of the wire become reports, what the report holds, and which error the others give.
use mathlib.Core.Option
use vita_oxi_pad.Base.{◌≡◌, ◌≢◌, ◌↔◌, none, some, ok, err, arith}
use vita_oxi_pad.NetProtocol
use vita_oxi_pad.Reports.{
  MainReport, buttons_missing, front_touch_missing, back_touch_missing, motion_missing,
  buttons_from, touch_data_from, motion_from, try_from,
}

-- A report that `try_from` makes holds the pad's four parts, each converted, and its six numbers.
pub try_from_carries :
    (p : NetProtocol.Pad) (r : MainReport)
    → try_from p ≡ ok r
    → (Option.map buttons_from p.buttons ≡ some r.buttons)
      × (Option.map touch_data_from p.front_touch ≡ some r.front_touch)
      × (Option.map touch_data_from p.back_touch ≡ some r.back_touch)
      × (Option.map motion_from p.motion ≡ some r.motion)
      × (r.timestamp ≡ p.timestamp)
      × (r.charge_percent ≡ p.charge_percent)
      × (r.lx ≡ p.lx)
      × (r.ly ≡ p.ly)
      × (r.rx ≡ p.rx)
      × (r.ry ≡ p.ry)
unfolding try_from
try_from_carries p r h = ground arith

-- Each error names the first part that is missing, in the order buttons, front touch, back touch,
-- motion.
pub try_from-err :
    (p : NetProtocol.Pad)
    → ((try_from p ≡ err buttons_missing) ↔ (p.buttons ≡ none))
      × ((try_from p ≡ err front_touch_missing) ↔ ((p.buttons ≢ none) × (p.front_touch ≡ none)))
      × ((try_from p ≡ err back_touch_missing)
          ↔ ((p.buttons ≢ none) × (p.front_touch ≢ none) × (p.back_touch ≡ none)))
      × ((try_from p ≡ err motion_missing) ↔ (
          (p.buttons ≢ none) × (p.front_touch ≢ none) × (p.back_touch ≢ none) × (p.motion ≡ none)))
unfolding try_from
try_from-err p = ground arith
