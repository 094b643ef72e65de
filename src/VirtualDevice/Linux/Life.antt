-- ===== src/VirtualDevice/Linux/Life.antt =====
-- The life of a Linux device: what `create` gives, and then any series of calls of the two methods
-- that change it, `send_report` and `set_config`.
use vita_oxi_pad.Base.{
  ◌≡◌, ◌∙◌, refl, sym, ap, subst, err, Outcome, panics, Option, none, some, Result, ok, returns,
}
use vita_oxi_pad.Reports.{MainReport}
use vita_oxi_pad.VirtualDevice.Button.{Iteration}
use vita_oxi_pad.VirtualDevice.Touch.{Rstar}
use vita_oxi_pad.VirtualDevice.Config.{
  Config, ConfigBuilder, TouchpadSource, front, rear, set_config,
}
use vita_oxi_pad.VirtualDevice.Floats.{Floats}
use vita_oxi_pad.VirtualDevice.Linux.Touch.View.{Contacts}
use vita_oxi_pad.VirtualDevice.Linux.Report.{VitaDevice, new_device, send_report}
use vita_oxi_pad.VirtualDevice.Linux.Report.Readers.{Readers, observe, IsValid, PadSynced}
use vita_oxi_pad.VirtualDevice.Linux.Report.Laws.{
  InSync, Reported, send_report-Reported, untouched, new_device-InSync,
}

-- `set_config` of the device.
abbrev pub set_device_config :
    {Tree : Type 0} → ConfigBuilder Tree → VitaDevice Tree → VitaDevice Tree
set_device_config builder d = record d { config = set_config builder d.config }

module _ {Rect Tree : Type 0} (rs : Rstar Rect Tree) (order : Iteration) (fl : Floats)
    (E : Type 0) where
  -- The device and the readers that come about from a new device by calls that succeed.
  pub data Reach (config : Config Tree) : VitaDevice Tree → Readers → Type 0 where
    created : Reach config (new_device config) untouched
    sent :
        {d d' : VitaDevice Tree} {rd rd' : Readers} (r : MainReport)
        → Reach config d rd
        → send_report rs order fl {E = E} observe r d rd ≡ returns (ok rd', d')
        → Reach config d' rd'
    configured :
        {d : VitaDevice Tree} {rd : Readers} (builder : ConfigBuilder Tree)
        → Reach config d rd
        → Reach config (set_device_config builder d) rd

pad_configured :
    {Tree : Type 0} (source : Option TouchpadSource) (builder : ConfigBuilder Tree)
    (d : VitaDevice Tree) (v : Contacts)
    → PadSynced source d v
    → PadSynced source (set_device_config builder d) v
pad_configured none builder d v s = tt
pad_configured (some front) builder d v s = s
pad_configured (some rear) builder d v s = s

-- The device is valid, the readers agree with it, and its touchpad stands for the same pad.
pub record Alive {Tree : Type 0} (config : Config Tree) (d : VitaDevice Tree) (rd : Readers)
    : Type 0 where
  pub valid : IsValid d
  pub synced : InSync d rd
  pub same_source : d.config.touchpad_source ≡ config.touchpad_source

-- What a call of `send_report` that succeeds leaves is alive.
abbrev Leaves :
    {Tree E : Type 0} → Config Tree → Outcome (Result Readers E × VitaDevice Tree) → Type 0
Leaves config panics = Unit {0}
Leaves config (returns (err e, d)) = Unit {0}
Leaves config (returns (ok rd, d)) = Alive config d rd

module _ {Rect Tree : Type 0} (rs : Rstar Rect Tree) (order : Iteration) (fl : Floats)
    (E : Type 0) where
  configured-Alive :
      (config : Config Tree) (builder : ConfigBuilder Tree) (d : VitaDevice Tree) (rd : Readers)
      → Alive config d rd
      → Alive config (set_device_config builder d) rd
  unfolding set_config
  configured-Alive config builder d rd a = record {
    valid = record { front_slots = a.valid.front_slots; rear_slots = a.valid.rear_slots };
    synced = record {
      gamepad = a.synced.gamepad;
      pad = pad_configured d.config.touchpad_source builder d rd.pad a.synced.pad;
    };
    same_source = a.same_source;
  }

  sent-Alive :
      (config : Config Tree) (r : MainReport) (d d' : VitaDevice Tree) (rd rd' : Readers)
      → Alive config d rd
      → send_report rs order fl {E = E} observe r d rd ≡ returns (ok rd', d')
      → Alive config d' rd'
  sent-Alive config r d d' rd rd' a e =
      let q = send_report-Reported rs order fl E r d rd a.valid a.synced in
      subst (Leaves config) (sym q.runs ∙ e) (record {
        valid = q.valid;
        synced = q.synced;
        same_source = ap (λ c. c.touchpad_source) q.same_config ∙ a.same_source;
      })

  Reach-Alive :
      (config : Config Tree) (d : VitaDevice Tree) (rd : Readers)
      → Reach rs order fl E config d rd
      → Alive config d rd
  unfolding new_device
  Reach-Alive config _ _ created =
      let (valid, synced) = new_device-InSync config in
      record { valid = valid; synced = synced; same_source = refl }
  Reach-Alive config _ _ (sent {d} {d'} {rd} {rd'} r before e) =
      sent-Alive config r d d' rd rd' (Reach-Alive config d rd before) e
  Reach-Alive config _ _ (configured {d} {rd} builder before) =
      configured-Alive config builder d rd (Reach-Alive config d rd before)

  -- From a new device, whatever reports it has been sent and however it has been configured since, the
  -- next report is sent without a panic and without an error when its writes succeed: the device is
  -- valid, its readers agree with it and see that report, and the pad that its touchpad stands for is
  -- the one it was made with.
  pub Reach-Reported :
      (config : Config Tree) (d : VitaDevice Tree) (rd : Readers) (r : MainReport)
      → Reach rs order fl E config d rd
      → Alive config d rd × Reported rs order fl E r d rd
  Reach-Reported config d rd r reached =
      let a = Reach-Alive config d rd reached in
      (a, send_report-Reported rs order fl E r d rd a.valid a.synced)
