-- ===== src/Tests/Clicks.antt =====
-- A short touch and a long one.
use vita_oxi_pad.Base.{
  ◌-◌, ◌≡◌, Bool, true, false, List, [], ◌∷◌, ◌++◌, ℕ, map, ltb, length, replicate,
}
use vita_oxi_pad.VirtualDevice.Windows.{click_limit, touch_clicks}
use vita_oxi_pad.VirtualDevice.Windows.Click.{released, touch_clicks_one}

abbrev held : List ℕ
held = 40000000 ∷ []

-- A second touch, of 300 milliseconds.
abbrev long_touch : List (ℕ × Bool)
long_touch = (200000000, true) ∷ (500000000, false) ∷ []

touch_clicks_one_example :
    touch_clicks ((0, true) ∷ map (λ t. (t, true)) held ++ (90000000, false) ∷ long_touch) released
    ≡ (let after = touch_clicks long_touch released in
        (
          false ∷ replicate (length held) false ++ ltb (90000000 - 0) click_limit ∷ after.0,
          after.1,
        ))
touch_clicks_one_example = touch_clicks_one 0 held 90000000 long_touch
