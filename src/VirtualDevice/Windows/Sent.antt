-- ===== src/VirtualDevice/Windows/Sent.antt =====
-- `send_report` of windows.rs as a whole.
use vita_oxi_pad.Base.{
  ℕ, ◌≡◌, ◌≢◌, refl, ap, Bool, true, false, ◌||◌, List, [], ◌∷◌, some, map_err, panics, returns,
  arith, if◌then◌else◌, Bool-cases, inl, inr,
}
use vita_oxi_pad.Base.Int.{pos}
use vita_oxi_pad.NetProtocol.{F32}
use vita_oxi_pad.Reports.{ButtonsData, MainReport}
use vita_oxi_pad.VirtualDevice.Button.{Button}
use vita_oxi_pad.VirtualDevice.Touch.{Rstar}
use vita_oxi_pad.VirtualDevice.Config.{Config}
use vita_oxi_pad.VirtualDevice.Floats.{Floats}
use vita_oxi_pad.VirtualDevice.Linux.Report.{pressed_now}
use vita_oxi_pad.VirtualDevice.Windows.{TouchState, touching_by, touch_click}
use vita_oxi_pad.VirtualDevice.Windows.Vigem.{
  Ds4Buttons, Ds4SpecialButtons, Ds4Report, System, KeyInput, VirtualKey, vk_volume_up,
  vk_volume_down,
}
use vita_oxi_pad.VirtualDevice.Windows.Report.{
  WindowsDevice, button_mask, simulate_key_press, change_volume_by_key, press_volume,
  send_report_failed, build_report, report_buttons, send_windows_report,
}
use vita_oxi_pad.VirtualDevice.Windows.Pressed.{
  is_ps, Bits, report_buttons_agree, trigger_power_lem,
}

module _ {B S W E : Type 0} (fl : Floats) (sys : System B S W E)
    (taken : (l : List KeyInput) (w : W) → (sys.send_input l w).0 ≢ 0) where
  simulate_succeeds :
      (vk : VirtualKey) (w : W) → (w' : W) × (simulate_key_press fl sys vk w ≡ some w')
  unfolding simulate_key_press
  simulate_succeeds vk w =
      let l = (vk, false) ∷ (vk, true) ∷ [] in ((sys.send_input l w).1, ground (arith, taken l w))

  change_succeeds :
      (delta : F32) (w : W) → (w' : W) × (change_volume_by_key fl sys delta w ≡ some w')
  unfolding change_volume_by_key
  change_succeeds delta w = elim (Bool-cases (fl.gt delta (fl.literal (pos 0)))) [
    | inl e ↦ rw e (simulate_succeeds vk_volume_up w)
    | inr e ↦ elim (Bool-cases (fl.gt (fl.literal (pos 0)) delta)) [
      | inl d ↦ rw (e, d) (simulate_succeeds vk_volume_down w)
      | inr d ↦ rw (e, d) (w, refl)
    ]
  ]

  if_succeeds :
      (b : Bool) (delta : F32) (w : W)
      → (w' : W) × ((if b then change_volume_by_key fl sys delta w else some w) ≡ some w')
  if_succeeds true delta w = change_succeeds delta w
  if_succeeds false delta w = (w, refl)

  press_volume_succeeds :
      (b : ButtonsData) (w : W) → (w' : W) × (press_volume fl sys b w ≡ returns w')
  unfolding press_volume
  press_volume_succeeds b w =
      let (w1, up) = if_succeeds b.vol_up (fl.hundredths 2) w in
      let (w2, down) = if_succeeds b.vol_down (fl.neg (fl.hundredths 2)) w1 in
      (w2, rw (up, press_volume) (rw (down, press_volume) refl))

module _ {Rect Tree B S W E : Type 0} (rs : Rstar Rect Tree) (fl : Floats) (ds4 : Ds4Buttons B)
    (specials : Ds4SpecialButtons S) (sys : System B S W E) (bits : Bits ds4) where
  -- What a call of `send_report` does when no key press fails.
  pub record Sent (now : ℕ) (r : MainReport) (d : WindowsDevice Tree) (w : W) : Type 0 where
    pub world : W
    pub report : Ds4Report B S
    pub after : WindowsDevice Tree
    pub runs :
        send_windows_report rs fl ds4 specials sys now r d w
        ≡ returns (map_err send_report_failed (sys.update_ex report world), after)
    pub same_config : after.config ≡ d.config
    pub touching :
        after.touch.touch_state
        ≡ touching_by d.config.front_touch_config d.config.rear_touch_config r
    pub buttons :
        (b : Button)
        → (bits.has report.buttons (button_mask ds4 b) || is_ps b)
          ≡ ((pressed_now rs r d.config).buttons b || is_ps b)
    pub trigger_l :
        report.trigger_l
        ≡ (if (pressed_now rs r d.config).buttons Button.trigger_left then 255 else 0)
    pub trigger_r :
        report.trigger_r
        ≡ (if (pressed_now rs r d.config).buttons Button.trigger_right then 255 else 0)
    pub lx : report.thumb_lx ≡ r.lx
    pub ly : report.thumb_ly ≡ r.ly
    pub rx : report.thumb_rx ≡ r.rx
    pub ry : report.thumb_ry ≡ r.ry

  touch_click_state :
      (now : ℕ) (t : Bool) (c : TouchState) → (touch_click now t c).1.touch_state ≡ t
  unfolding touch_click
  touch_click_state now t c = ground arith

  agree_or_ps :
      (r : MainReport) (config : Config Tree) (b : Button)
      → (bits.has (report_buttons rs ds4 r config) (button_mask ds4 b) || is_ps b)
        ≡ ((pressed_now rs r config).buttons b || is_ps b)
  agree_or_ps r config b = elim (Bool-cases (is_ps b)) [
    | inl e ↦ ground arith
    | inr e ↦ ap (λ c. c || is_ps b) (report_buttons_agree rs ds4 bits r config b e)
  ]

  -- Given the mask's documented bits, and when `SendInput` takes the key presses, a call does not
  -- panic: it gives the result of one update with a report, the device keeps its configuration and
  -- stores if the pad is touched. The report has each button but the PS button pressed exactly if the
  -- Linux device would press it, each trigger at 255 if its button is pressed and at 0 otherwise, and
  -- the sticks of the Vita.
  pub send_windows_report-Sent :
      (now : ℕ) (r : MainReport) (d : WindowsDevice Tree) (w : W)
      → ((l : List KeyInput) (v : W) → (sys.send_input l v).0 ≢ 0)
      → Sent now r d w
  unfolding send_windows_report build_report button_mask
  send_windows_report-Sent now r d w taken =
      let (w', volume) = press_volume_succeeds fl sys taken r.buttons w in
      let t = touching_by d.config.front_touch_config d.config.rear_touch_config r in
      let c = touch_click now t d.touch in
      record {
        world = w';
        report = build_report rs fl ds4 specials r d.config c.0;
        after = record d { touch = c.1 };
        runs = rw (volume, send_windows_report) refl;
        same_config = refl;
        touching = touch_click_state now t d.touch;
        buttons = agree_or_ps r d.config;
        trigger_l = trigger_power_lem rs ds4 bits r d.config Button.trigger_left refl;
        trigger_r = trigger_power_lem rs ds4 bits r d.config Button.trigger_right refl;
        lx = refl;
        ly = refl;
        rx = refl;
        ry = refl;
      }

  -- When the volume-up button is down, `0.02` is above 0 and `SendInput` takes no key press, a call
  -- panics, whatever the rest of the report is.
  pub send_windows_report_panics :
      (now : ℕ) (r : MainReport) (d : WindowsDevice Tree) (w : W)
      → r.buttons.vol_up ≡ true
      → fl.gt (fl.hundredths 2) (fl.literal (pos 0)) ≡ true
      → (sys.send_input ((vk_volume_up, false) ∷ (vk_volume_up, true) ∷ []) w).0 ≡ 0
      → send_windows_report rs fl ds4 specials sys now r d w ≡ panics
  unfolding send_windows_report press_volume change_volume_by_key simulate_key_press
  send_windows_report_panics now r d w up positive refused = ground arith
