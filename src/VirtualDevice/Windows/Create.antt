-- ===== src/VirtualDevice/Windows/Create.antt =====
-- `VitaDevice::create` and `set_config` of windows.rs. The calls of vigem_client are parameters.
use Prim.Native.String.{String}
use vita_oxi_pad.Base.{◌≡◌, refl, none, some, Result, ok, err, ◌>>=◌, map_err}
use vita_oxi_pad.VirtualDevice.Touch.{Rstar}
use vita_oxi_pad.VirtualDevice.Config.{Config, ConfigBuilder, set_config}
use vita_oxi_pad.VirtualDevice.Linux.Setup.{config_named}
use vita_oxi_pad.VirtualDevice.Windows.Report.{WindowsDevice, new_windows_device}

-- `Error`, without `SendReportFailed`.
pub data WindowsCreateError (E : Type 0) : Type 0 where
  connection_failed : E → WindowsCreateError E
  plugin_target_failed : E → WindowsCreateError E
  invalid_config : String → WindowsCreateError E

-- `Client::connect`, and `plugin` and `wait_ready` of the target.
pub record Bus (W E : Type 0) : Type 0 where
  pub connect : W → Result W E
  pub plugin : W → Result W E
  pub wait_ready : W → Result W E

module _ {Rect Tree W E : Type 0} (rs : Rstar Rect Tree) (bus : Bus W E) where
  -- The match on the name is the same code as on Linux, but it comes last.
  unfoldable pub create_windows :
      String → W → Result (WindowsDevice Tree × W) (WindowsCreateError E)
  unfolding config_named new_windows_device
  create_windows name w = do
    w1 ← map_err connection_failed (bus.connect w)
    w2 ← map_err plugin_target_failed (bus.plugin w1)
    w3 ← map_err plugin_target_failed (bus.wait_ready w2)
    elim (config_named rs name) [
      | none ↦ err (invalid_config name)
      | some config ↦ ok (new_windows_device config, w3)
    ]

-- `set_config`
abbrev pub set_windows_config :
    {Tree : Type 0} → ConfigBuilder Tree → WindowsDevice Tree → WindowsDevice Tree
set_windows_config builder d = record d { config = set_config builder d.config }

module _ {Rect Tree W E : Type 0} (rs : Rstar Rect Tree) (bus : Bus W E) where
  -- When the target can be plugged in and the name gives a configuration, `create` makes a device with
  -- that configuration.
  create_windows_lem :
      (name : String) (config : Config Tree) (w w1 w2 w3 : W)
      → bus.connect w ≡ ok w1
      → bus.plugin w1 ≡ ok w2
      → bus.wait_ready w2 ≡ ok w3
      → config_named rs name ≡ some config
      → create_windows rs bus name w ≡ ok (new_windows_device config, w3)
  unfolding create_windows
  create_windows_lem name config w w1 w2 w3 a b c n =
      rw (a, create_windows) (rw b (rw c (rw n refl)))

  -- A target that cannot be plugged in is reported before the name is looked at.
  create_windows_unplugged :
      (name : String) (w w1 : W) (e : E)
      → bus.connect w ≡ ok w1
      → bus.plugin w1 ≡ err e
      → create_windows rs bus name w ≡ err (plugin_target_failed e)
  unfolding create_windows
  create_windows_unplugged name w w1 e a b = rw (a, create_windows) (rw b refl)
