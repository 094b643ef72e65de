-- ===== src/VirtualDevice/Linux/Setup/Create.antt =====
-- The results of `create` and `new` of linux.rs.
use Prim.Native.String.{String}
use text.Mathlib.TextEquality.{eq_iff}
use vita_oxi_pad.Base.{
  ◌≡◌, ◌≢◌, ◌↔◌, refl, List, [], ◌∷◌, ◌++◌, Option, some, Result, ok, err, ◌>>=◌, arith,
}
use vita_oxi_pad.VirtualDevice.Touch.{Rstar}
use vita_oxi_pad.VirtualDevice.Config.{Config}
use vita_oxi_pad.VirtualDevice.Linux.Report.{Handle, main, touchpad, sensor, keyboard, new_device}
use vita_oxi_pad.VirtualDevice.Linux.Report.Readers.{IsValid}
use vita_oxi_pad.VirtualDevice.Linux.Report.Laws.{InSync, untouched, new_device-InSync}
use vita_oxi_pad.VirtualDevice.Linux.Setup.{
  Call, setup, call_all, device_creation_failed, invalid_config, identifiers_of, config_named, new,
  open_files, create,
}
use vita_oxi_pad.VirtualDevice.Linux.Setup.Abilities.{
  Kernel, blank, granted, call_all-granted, made,
}

then_stops :
    {A B D E : Type 0} (o : Result A E) (f : A → Result B E) (g : A → Result D E) (b : B) (e : E)
    → o >>= f ≡ ok b
    → ((a : A) → f a ≡ ok b → g a ≡ err e)
    → o >>= g ≡ err e
then_stops (ok a) f g b e p h = h a p
then_stops (err d) f g b e p h = cc

module _ {W E : Type 0} (ioctl : Handle → Call → W → Result W E) where
  call_all_stops :
      (before after : List (Handle × Call)) (h : Handle) (c : Call) (w w' : W) (e : E)
      → call_all ioctl before w ≡ ok w'
      → ioctl h c w' ≡ err e
      → call_all ioctl (before ++ (h, c) ∷ after) w ≡ err e
  unfolding call_all
  call_all_stops [] after h c w w' e p q = ground arith
  call_all_stops ((h', c') ∷ before) after h c w w' e p q =
      then_stops (ioctl h' c' w) (call_all ioctl before) (call_all ioctl (before ++ (h, c) ∷ after))
        w' e p (λ w1 p1. call_all_stops before after h c w1 w' e p1 q)

module _ (E : Type 0) {Tree : Type 0} (evdev_name : Handle → Kernel → Option String) where
  new_runs :
      (config : Config Tree)
      → new {E = E} granted evdev_name config blank
        ≡ ok (record {
          device = new_device config;
          ids =
              identifiers_of
                (evdev_name main (made config))
                (evdev_name touchpad (made config))
                (evdev_name sensor (made config))
                (evdev_name keyboard (made config));
          world = made config;
        })
  unfolding new made
  new_runs config = rw (call_all-granted E (setup config.touchpad_source) blank) refl

module _ {Rect Tree W E : Type 0} (rs : Rstar Rect Tree) (ioctl : Handle → Call → W → Result W E)
    (evdev_name : Handle → W → Option String) (open_uinput : Handle → W → Result W E) where
  -- `create` refuses a name exactly if it is none of the four configurations' names.
  pub create_refuses_iff :
      (name : String) (w : W)
      → (create rs ioctl evdev_name open_uinput name w ≡ err (invalid_config name)) ↔ (
          (name ≢ "standart")
          × (name ≢ "alt_triggers")
          × (name ≢ "rear_touchpad")
          × (name ≢ "front_touchpad"))
  unfolding create config_named
  create_refuses_iff name w = ground (
    arith,
    eq_iff name "standart",
    eq_iff name "alt_triggers",
    eq_iff name "rear_touchpad",
    eq_iff name "front_touchpad",
  )

  -- A call that fails ends `create` with its error: when the name gives a configuration, the files
  -- open, and the calls up to one of those that set the devices up succeed but that one fails, then
  -- `create` gives that call's error.
  pub create_stops :
      (name : String) (config : Config Tree) (before after : List (Handle × Call)) (h : Handle)
      (c : Call) (w w1 w2 : W) (e : E)
      → config_named rs name ≡ some config
      → open_files open_uinput w ≡ ok w1
      → setup config.touchpad_source ≡ before ++ (h, c) ∷ after
      → call_all ioctl before w1 ≡ ok w2
      → ioctl h c w2 ≡ err e
      → create rs ioctl evdev_name open_uinput name w ≡ err (device_creation_failed e)
  unfolding create new
  create_stops name config before after h c w w1 w2 e n o s b f =
      let stopped = call_all_stops ioctl before after h c w1 w2 e b f in
      rw (n, create) (rw (o, new) (rw (s, stopped) refl))

module _ {Rect Tree : Type 0} (rs : Rstar Rect Tree) (E : Type 0)
    (evdev_name : Handle → Kernel → Option String) where
  -- When the name gives a configuration and the system does what it is asked, `create` succeeds: it
  -- gives a new device with that configuration, and the identifiers exactly if all four devices have
  -- a name; and the device is valid and agrees with readers that have seen nothing.
  pub create_makes :
      (name : String) (config : Config Tree)
      → config_named rs name ≡ some config
      → (create {E = E} rs granted evdev_name (λ h w. ok w) name blank
          ≡ ok (record {
            device = new_device config;
            ids =
                identifiers_of
                  (evdev_name main (made config))
                  (evdev_name touchpad (made config))
                  (evdev_name sensor (made config))
                  (evdev_name keyboard (made config));
            world = made config;
          }))
        × IsValid (new_device config)
        × InSync (new_device config) untouched
  unfolding create open_files
  create_makes name config n =
      let (valid, synced) = new_device-InSync config in
      (rw (n, create) (rw (new_runs E evdev_name config) refl), valid, synced)
