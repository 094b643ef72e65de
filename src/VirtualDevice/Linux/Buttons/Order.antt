-- ===== src/VirtualDevice/Linux/Buttons/Order.antt =====
-- The iteration over the hash sets of buttons in `send_report` of linux.rs.
use vita_oxi_pad.Base.{
  ◌≤◌, ◌≡◌, ◌∙◌, refl, sym, ap, Bool, true, false, ◌||◌, List, [], ◌∷◌, arith, ltb, ◌==◌,
  if◌then◌else◌,
}
use vita_oxi_pad.Reports.{MainReport}
use vita_oxi_pad.VirtualDevice.Button.{
  Button, ButtonSet, count, discriminant, discriminant-lt, difference, Iteration,
}
use vita_oxi_pad.VirtualDevice.Linux.Events.{
  Key, key_code, map_button_to_ds4, key_code-map_button_to_ds4, View, applies,
}
use vita_oxi_pad.VirtualDevice.Linux.Buttons.{Pressed, Previous, key_events, main_events}
use vita_oxi_pad.VirtualDevice.Linux.Buttons.Laws.{
  tail_events, after_keys, axes_after, applies-main_events,
}

-- One of the buttons is written as the key.
abbrev hits : Key → List Button → Bool
hits k [] = false
hits k (b ∷ bs) = discriminant b == key_code k || hits k bs

keys-key_events :
    (state : Bool) (bs : List Button) (v : View) (k : Key)
    → (applies (key_events state bs) v).keys k ≡ (if hits k bs then state else v.keys k)
unfolding key_events
keys-key_events state [] v k = refl
keys-key_events state (b ∷ bs) v k =
    keys-key_events state bs _ k ∙ rw (key_code-map_button_to_ds4 b) (ground arith)

hits-map_button_to_ds4 :
    (b : Button) (bs : List Button) → hits (map_button_to_ds4 b) bs ≡ ltb 0 (count b bs)
hits-map_button_to_ds4 b [] = refl
hits-map_button_to_ds4 b (c ∷ bs) =
    ground (arith, hits-map_button_to_ds4 b bs, key_code-map_button_to_ds4 b)

hits_none : (k : Key) (bs : List Button) → 13 ≤ key_code k → hits k bs ≡ false
hits_none k [] h = refl
hits_none k (b ∷ bs) h = ground (arith, hits_none k bs h, discriminant-lt b)

module _ (order order' : Iteration) where
  hits_button :
      (s : ButtonSet) (b : Button)
      → hits (map_button_to_ds4 b) (order.iter s) ≡ hits (map_button_to_ds4 b) (order'.iter s)
  hits_button s b = ground (
    arith,
    hits-map_button_to_ds4 b (order.iter s),
    hits-map_button_to_ds4 b (order'.iter s),
    order.count_iter s b,
    order'.count_iter s b,
  )

  hits_iter : (s : ButtonSet) (k : Key) → hits k (order.iter s) ≡ hits k (order'.iter s)
  unfolding map_button_to_ds4
  hits_iter s Key.button_thumbr = hits_button s Button.thumb_right
  hits_iter s Key.button_thumbl = hits_button s Button.thumb_left
  hits_iter s Key.button_start = hits_button s Button.options
  hits_iter s Key.button_select = hits_button s Button.share
  hits_iter s Key.button_tr = hits_button s Button.trigger_right
  hits_iter s Key.button_tl = hits_button s Button.trigger_left
  hits_iter s Key.button_tr2 = hits_button s Button.shoulder_right
  hits_iter s Key.button_tl2 = hits_button s Button.shoulder_left
  hits_iter s Key.button_north = hits_button s Button.triangle
  hits_iter s Key.button_east = hits_button s Button.circle
  hits_iter s Key.button_south = hits_button s Button.cross
  hits_iter s Key.button_west = hits_button s Button.square
  hits_iter s Key.button_mode = hits_button s Button.ps_button
  hits_iter s k =
      hits_none k (order.iter s) (omega arith) ∙ sym (hits_none k (order'.iter s) (omega arith))

  keys_after :
      (now : Pressed) (old : Previous) (v : View) (k : Key)
      → (after_keys order now old v).keys k ≡ (after_keys order' now old v).keys k
  keys_after now old v k =
      let press = difference now.buttons old.previous_buttons in
      let release = difference old.previous_buttons now.buttons in
      ground (
        arith,
        keys-key_events false (order.iter release) (applies (key_events true (order.iter press)) v)
            k,
        keys-key_events false (order'.iter release)
            (applies (key_events true (order'.iter press)) v) k,
        keys-key_events true (order.iter press) v k,
        keys-key_events true (order'.iter press) v k,
        hits_iter press k,
        hits_iter release k,
      )

  same_after :
      (now : Pressed) (old : Previous) (v : View)
      → after_keys order now old v ≡ after_keys order' now old v
  same_after now old v =
      let axes = axes_after order now old v ∙ sym (axes_after order' now old v) in
      λ i. record { keys = λ k. keys_after now old v k i; axes = axes i }

  -- Whatever the order in which the sets of buttons iterate, a reader sees the same of the events of a
  -- report.
  pub main_events_order :
      (r : MainReport) (now : Pressed) (old : Previous) (v : View)
      → applies (main_events order r now old) v ≡ applies (main_events order' r now old) v
  main_events_order r now old v =
      applies-main_events order r now old v
      ∙ ap (applies (tail_events r now old)) (same_after now old v)
      ∙ sym (applies-main_events order' r now old v)
