-- ===== src/VirtualDevice/Linux/Touch.antt =====
-- `create_touch_events` of linux.rs: the slots of the multitouch protocol. An index past the end of
-- `previous_touches` panics.
pub mod View
pub mod Reset
pub mod Update
pub mod Laws
use vita_oxi_pad.Base.{
  ℕ, zero, suc, ◌+◌, Bool, true, false, not, ◌&&◌, ◌||◌, List, [], ◌∷◌, ◌++◌, Option, none, some,
  Outcome, panics, returns, ltb, leb, if◌then◌else◌, get_elem?, set,
}
use vita_oxi_pad.Base.Int.{ℤ, pos, negsuc}
use vita_oxi_pad.Reports.{TouchReport}
use vita_oxi_pad.VirtualDevice.Linux.Events.{
  InputEvent, key, absolute, multitouch_slot, multitouch_tracking_id, multitouch_position_x,
  multitouch_position_y, multitouch_pressure, button_touch, button_tool_finger,
}

-- `previous_touches`: the tracking id of each slot's touch.
abbrev pub Slots : Type 0
Slots = List (Option ℕ)

abbrev pub is_some {ℓ} : {A : Type ℓ} → Option A → Bool
is_some none = false
is_some (some a) = true

-- The events of a loop, and the slots after it.
abbrev pub Run : Type 0
Run = Outcome (List InputEvent × Slots)

-- `events` pushed before those of a later run.
abbrev pub push : List InputEvent → Run → Run
push es panics = panics
push es (returns (fs, slots)) = returns (es ++ fs, slots)

unfoldable pub release_slot : ℕ → List InputEvent
release_slot slot =
    absolute multitouch_slot (pos slot) ∷ absolute multitouch_tracking_id (negsuc 0) ∷ []

-- `for slot in 0..max_slots`, from `slot` on with `rounds` to go.
unfoldable pub reset_slots : (rounds slot : ℕ) → List TouchReport → Slots → Run
unfolding release_slot
reset_slots zero slot touches slots = returns ([], slots)
reset_slots (suc rounds) slot touches slots = elim (get_elem? slots slot) [
  | none ↦ panics
  | some old_id ↦
      let ended = is_some old_id && not (is_some (get_elem? touches slot)) in
      push (if ended then release_slot slot else [])
        (reset_slots rounds (suc slot) touches (if ended then set slots slot none else slots))
]

unfoldable pub slot_events : ℕ → TouchReport → List InputEvent
slot_events slot touch =
    absolute multitouch_slot (pos slot)
    ∷ absolute multitouch_tracking_id (pos touch.id)
    ∷ absolute multitouch_position_x (pos touch.x)
    ∷ absolute multitouch_position_y (pos touch.y)
    ∷ absolute multitouch_pressure (pos touch.force)
    ∷ []

-- `for (slot, touch) in touch_reports.iter().enumerate()`, with its `break`.
unfoldable pub update_slots : (max_slots slot : ℕ) → List TouchReport → Slots → Run
unfolding slot_events
update_slots max_slots slot [] slots = returns ([], slots)
update_slots max_slots slot (touch ∷ touches) slots =
    let rest = update_slots max_slots (suc slot) touches (set slots slot (some touch.id)) in
    if leb max_slots slot
    then returns ([], slots)
    else elim (get_elem? slots slot) [ none ↦ panics | some _ ↦ push (slot_events slot touch) rest ]

-- `any_touch_active`, which the same loop sets.
unfoldable pub any_touch_active : (max_slots slot : ℕ) → List TouchReport → Bool
any_touch_active max_slots slot [] = false
any_touch_active max_slots slot (touch ∷ touches) =
    let rest = any_touch_active max_slots (suc slot) touches in
    if leb max_slots slot then false else ltb 0 touch.force || rest

-- The button events of the whole pad, and the new `touch_state`.
unfoldable pub touch_button_events : (active touch_state : Bool) → List InputEvent × Bool
touch_button_events active touch_state =
    if active && not touch_state
    then (key button_touch true ∷ key button_tool_finger true ∷ [], true)
    else if not active && touch_state
    then (key button_touch false ∷ key button_tool_finger false ∷ [], false)
    else ([], touch_state)

unfoldable pub create_touch_events :
    List TouchReport → Slots → ℕ → Bool → Outcome (List InputEvent × Slots × Bool)
unfolding reset_slots update_slots any_touch_active touch_button_events
create_touch_events touches slots max_slots touch_state =
    elim (reset_slots max_slots 0 touches slots) [
      | panics ↦ panics
      | returns (resets, slots') ↦ elim (update_slots max_slots 0 touches slots') [
        | panics ↦ panics
        | returns (updates, slots'') ↦
            let (buttons, state') =
              touch_button_events (any_touch_active max_slots 0 touches) touch_state in
            returns (resets ++ (updates ++ buttons), slots'', state')
      ]
    ]
