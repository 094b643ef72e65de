-- ===== src/VirtualDevice/Config/Laws.antt =====
-- What touches do under each of the four configurations.
use vita_oxi_pad.Base.{◌≡◌, refl, List, [], All}
use vita_oxi_pad.Reports.{TouchReport}
use vita_oxi_pad.VirtualDevice.Button.{Button}
use vita_oxi_pad.VirtualDevice.Touch.{point, Rstar, Documented}
use vita_oxi_pad.VirtualDevice.Config.{
  rear_rl2_front_rl3, rear_rl1_front_rl3_vitatriggers_rl2, front_top_rl2_bottom_rl3_rear_touchpad,
  rear_top_rl2_bottom_rl3_front_touchpad, process_touch_reports,
}
use vita_oxi_pad.VirtualDevice.Config.Zones.{
  OnPad, InHalf, InQuarter, Each, halves_actions, quarters_actions,
}

module _ {Rect Tree : Type 0} (rs : Rstar Rect Tree) (d : Documented rs) where
  -- Under `rear_rl2_front_rl3`, where the tree does what rstar documents and the reports are on the
  -- pads, each report on the rear pad gives one action, in the order of the reports: the left
  -- shoulder only up to the middle line, the right one only from it on. On the front pad the same
  -- holds of the two thumb buttons.
  pub rear_rl2_front_rl3_touches :
      (rear front : List TouchReport)
      → All (OnPad (point 1920 887)) rear
      → All (OnPad (point 1920 1087)) front
      → Each
          (InHalf (point 1920 887) Button.shoulder_left Button.shoulder_right)
          rear
          (process_touch_reports rs rear (rear_rl2_front_rl3 rs).rear_touch_config)
        × Each
            (InHalf (point 1920 1087) Button.thumb_left Button.thumb_right)
            front
            (process_touch_reports rs front (rear_rl2_front_rl3 rs).front_touch_config)
  unfolding rear_rl2_front_rl3 process_touch_reports
  rear_rl2_front_rl3_touches rear front hr hf =
      (halves_actions rs d _ _ _ rear hr, halves_actions rs d _ _ _ front hf)

  -- Under `rear_rl1_front_rl3_vitatriggers_rl2` the same holds, under the same conditions, with the
  -- two triggers on the rear pad.
  pub rear_rl1_front_rl3_touches :
      (rear front : List TouchReport)
      → All (OnPad (point 1920 887)) rear
      → All (OnPad (point 1920 1087)) front
      → Each
          (InHalf (point 1920 887) Button.trigger_left Button.trigger_right)
          rear
          (process_touch_reports rs rear (rear_rl1_front_rl3_vitatriggers_rl2 rs).rear_touch_config)
        × Each (InHalf (point 1920 1087) Button.thumb_left Button.thumb_right) front (
            process_touch_reports rs front
              (rear_rl1_front_rl3_vitatriggers_rl2 rs).front_touch_config)
  unfolding rear_rl1_front_rl3_vitatriggers_rl2 process_touch_reports
  rear_rl1_front_rl3_touches rear front hr hf =
      (halves_actions rs d _ _ _ rear hr, halves_actions rs d _ _ _ front hf)

  -- Where the tree does what rstar documents and the reports are on the pads: under
  -- `front_top_rl2_bottom_rl3_rear_touchpad` each report on the front pad gives the button of
  -- a quarter that it is in, edges included, shoulders above and thumb buttons below; under
  -- `rear_top_rl2_bottom_rl3_front_touchpad` each on the rear pad does. The pad that stands for the
  -- touchpad gives no actions.
  pub touchpad_touches :
      (rear front : List TouchReport)
      → All (OnPad (point 1920 887)) rear
      → All (OnPad (point 1920 1087)) front
      → Each
          (InQuarter
            (point 1920 1087)
            Button.shoulder_left
            Button.shoulder_right
            Button.thumb_left
            Button.thumb_right)
          front
          (process_touch_reports rs front
            (front_top_rl2_bottom_rl3_rear_touchpad rs).front_touch_config)
        × (process_touch_reports rs rear
              (front_top_rl2_bottom_rl3_rear_touchpad rs).rear_touch_config
            ≡ [])
        × Each
            (InQuarter
              (point 1920 887)
              Button.shoulder_left
              Button.shoulder_right
              Button.thumb_left
              Button.thumb_right)
            rear
            (process_touch_reports rs rear
              (rear_top_rl2_bottom_rl3_front_touchpad rs).rear_touch_config)
        × (process_touch_reports rs front
              (rear_top_rl2_bottom_rl3_front_touchpad rs).front_touch_config
            ≡ [])
  unfolding front_top_rl2_bottom_rl3_rear_touchpad rear_top_rl2_bottom_rl3_front_touchpad
      process_touch_reports
  touchpad_touches rear front hr hf = (
    quarters_actions rs d _ _ _ _ _ front hf,
    refl,
    quarters_actions rs d _ _ _ _ _ rear hr,
    refl,
  )
