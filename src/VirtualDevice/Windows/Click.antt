-- ===== src/VirtualDevice/Windows/Click.antt =====
-- Which touches are clicks.
use vita_oxi_pad.Base.{
  ℕ, ◌-◌, ◌≡◌, refl, ap, Bool, true, false, List, [], ◌∷◌, ◌++◌, map, none, some, ltb, length,
  replicate,
}
use vita_oxi_pad.VirtualDevice.Windows.{TouchState, click_limit, touch_clicks}

-- No touch is under way.
abbrev pub released : TouchState
released = record { touch_state = false; touch_start_time = none }

abbrev pub since : ℕ → TouchState
since start = record { touch_state = true; touch_start_time = some start }

touch_clicks_held :
    (start : ℕ) (times : List ℕ) (end : ℕ) (later : List (ℕ × Bool))
    → touch_clicks (map (λ t. (t, true)) times ++ (end, false) ∷ later) (since start) ≡ (
        let after = touch_clicks later released in
        (replicate (length times) false ++ ltb (end - start) click_limit ∷ after.0, after.1))
unfolding touch_clicks
touch_clicks_held start [] end later = refl
touch_clicks_held start (t ∷ times) end later =
    ap (λ r. (false ∷ r.0, r.1)) (touch_clicks_held start times end later)

-- A touch that begins when none is under way, is seen in any number of reports and then gone gives
-- one click at its end if it has lasted less than 150 milliseconds, and no click otherwise; what
-- comes after it is as if it had not been.
pub touch_clicks_one :
    (start : ℕ) (times : List ℕ) (end : ℕ) (later : List (ℕ × Bool))
    → touch_clicks ((start, true) ∷ map (λ t. (t, true)) times ++ (end, false) ∷ later) released ≡ (
        let after = touch_clicks later released in
        (
          false ∷ replicate (length times) false ++ ltb (end - start) click_limit ∷ after.0,
          after.1,
        ))
unfolding touch_clicks
touch_clicks_one start times end later =
    ap (λ r. (false ∷ r.0, r.1)) (touch_clicks_held start times end later)
