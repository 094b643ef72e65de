-- ===== src/Client/Whole/Laws.antt =====
-- The whole client on Linux, from the arguments through every turn of the loop.
use Prim.Native.String.{String}
use vita_oxi_pad.Client.Sockets.{open_sockets, open_poller}
use vita_oxi_pad.Base.{
  arith, true, ℕ, max, ◌≡◌, ◌∙◌, refl, sym, ap, subst, append-nil, ◌||◌, false, List, [], ◌++◌,
  Option, none, some, ok, err, returns, All, ◌==◌, if◌then◌else◌,
}
use vita_oxi_pad.NetProtocol
use vita_oxi_pad.NetProtocol.{FlatBuffers, handshake_content, config_content}
use vita_oxi_pad.Protocol.Bytes.{heartbeat_magic}
use vita_oxi_pad.Protocol.Connection.Stream.{Frames}
use vita_oxi_pad.VirtualDevice.Button.{Iteration}
use vita_oxi_pad.VirtualDevice.Touch.{Rstar}
use vita_oxi_pad.VirtualDevice.Floats.{Floats}
use vita_oxi_pad.VirtualDevice.Config.{Config}
use vita_oxi_pad.VirtualDevice.Linux.Report.{Handle, VitaDevice, WriteError, new_device}
use vita_oxi_pad.VirtualDevice.Linux.Report.Readers.{Readers}
use vita_oxi_pad.VirtualDevice.Linux.Report.Laws.{untouched, new_device-InSync}
use vita_oxi_pad.VirtualDevice.Linux.Setup.{CreateError, config_named, create}
use vita_oxi_pad.VirtualDevice.Linux.Setup.Abilities.{Kernel, granted, blank}
use vita_oxi_pad.VirtualDevice.Linux.Setup.Create.{create_makes}
use vita_oxi_pad.Client.Settings.{
  Settings, Surroundings, load_config, Args, Plan, or_option, decide, connects,
}
use vita_oxi_pad.Client.Settings.Laws.{chosen, decide_connects}
use vita_oxi_pad.Client.Startup.{Started, start, handshake_args, config_args}
use vita_oxi_pad.Client.Startup.Laws.{all_well, start_answered}
use vita_oxi_pad.Client.Session.{Round, Session, turns}
use vita_oxi_pad.Client.Session.Linux.{linux}
use vita_oxi_pad.Client.Session.Running.{Forward, Calm, Fine, turns-GoesOn}
use vita_oxi_pad.Client.Session.Turns.{Progress, Ended, turns-Ended, heartbeats}
use vita_oxi_pad.Client.Whole.{
  Platform, Outside, Run, ran, opened_session, run_loop, connect, client,
}

module _ {Rect Tree : Type 0} (rs : Rstar Rect Tree) (order : Iteration) (fl : Floats) (E : Type 0)
    (evdev_name : Handle → Kernel → Option String) where
  -- The Linux device where the system does what it is asked, with the readers of its handles.
  abbrev pub linux_platform : Platform (VitaDevice Tree × Readers) (CreateError E) (WriteError E)
  linux_platform = record {
    create = λ name. elim (create {E = E} rs granted evdev_name (λ h w. ok w) name blank) [
      | err e ↦ err e
      | ok c ↦ ok (c.device, untouched)
    ];
    device = linux rs order fl E;
  }

  platform_creates :
      (name : String) (config : Config Tree)
      → config_named rs name ≡ some config
      → linux_platform.create name ≡ ok (new_device config, untouched)
  platform_creates name config n =
      let e = (create_makes rs E evdev_name name config n).0 in rw (e, linux_platform) refl

-- What the control socket is sent before the loop.
abbrev pub opening : {Invalid : Type 0} → FlatBuffers Invalid → (port interval : ℕ) → List ℕ
opening fb port interval =
    fb.finished_data (handshake_content (handshake_args port))
    ++ (if interval == 4000 then [] else fb.finished_data (config_content (config_args interval)))

-- All that is asked of the system works.
abbrev pub smooth : (port opened : ℕ) → List ℕ → List Round → Outside
smooth port opened response rounds = record {
  sockets = record { connected = true; bound = true; nonblocking = true; local_port = some port };
  poller = record { made = true; added = true };
  opened = opened;
  answers = all_well response;
  rounds = rounds;
}

module _ {A P X Invalid D C E : Type 0} (parse_address : String → Option A)
    (around : Surroundings P X) (fb : FlatBuffers Invalid) (platform : Platform D C E) where
  client_connects :
      (args : Args) (out : Outside) (plan : Plan A)
      → decide parse_address around args ≡ returns (connects plan)
      → client parse_address around fb platform args out
        ≡ connect parse_address around fb platform plan out
  unfolding client
  client_connects args out plan e = rw (e, client) refl

  connect_runs :
      (plan : Plan A) (port opened : ℕ) (rounds : List Round) (response : List ℕ) (s : Started)
      (device : D)
      → platform.create plan.configuration ≡ ok device
      → start fb port plan.interval (all_well response) ≡ returns (ok s)
      → connect parse_address around fb platform plan (smooth port opened response rounds)
        ≡ ran (turns fb platform.device s.heartbeat_freq rounds (opened_session s device opened))
  unfolding connect run_loop open_sockets open_poller
  connect_runs plan port opened rounds response s device c e = rw (c, connect) (rw e refl)

-- The polling interval by the arguments and the settings.
abbrev pub interval_of : Args → Settings → ℕ
interval_of args settings = max (chosen args.polling_interval settings.polling_interval 4000) 4000

-- A new device with nothing received yet.
opened-Calm :
    {Tree : Type 0} (config : Config Tree) (s : Started) (opened : ℕ)
    → s.conn.incoming_buffer ≡ []
    → s.conn.outgoing_buffer ≡ []
    → Calm (opened_session s (new_device config, untouched) opened)
opened-Calm config s opened i o =
    let (valid, synced) = new_device-InSync config in
    record { no_input = i; no_output = o; valid = valid; synced = synced }

module _ {A X Tree Invalid E : Type 0} (fb : FlatBuffers Invalid) where
  -- A run of the client comes through all of its turns.
  pub record Serves (config : Config Tree) (port interval : ℕ)
      (o : Run A X Invalid (VitaDevice Tree × Readers) (WriteError E)) : Type 0 where
    pub after : Session (VitaDevice Tree × Readers)
    pub runs : o ≡ ran (some (returns (ok after)))
    pub calm : Calm after
    pub configured : after.feed.device.0.config ≡ config
    pub beats : ℕ
    pub writes : after.written ≡ opening fb port interval ++ heartbeats beats

module _ {A X Rect Tree Invalid : Type 0} (rs : Rstar Rect Tree) (order : Iteration) (fl : Floats)
    (E : Type 0) (fb : FlatBuffers Invalid) where
  turns-Serves :
      (freq : ℕ) (rounds : List Round) (config : Config Tree) (port interval : ℕ)
      (s : Session (VitaDevice Tree × Readers))
      → s.written ≡ opening fb port interval
      → s.feed.device.0.config ≡ config
      → Forward s.last_time rounds
      → All (Fine rs order fl E fb) rounds
      → Calm s
      → Serves {A = A} {X = X} fb config port interval
          (ran (turns fb (linux rs order fl E) freq rounds s))
  turns-Serves freq rounds config port interval s w c clock f calm =
      let q = turns-GoesOn rs order fl E fb freq s.last_time rounds s (omega arith) clock f calm in
      let progress : Progress s q.after =
        subst (λ o. Ended s o) q.runs
          (turns-Ended fb (linux rs order fl E) freq rounds s calm.no_output) in
      record {
        after = q.after;
        runs = ap ran q.runs;
        calm = q.calm;
        configured = q.same_config ∙ c;
        beats = progress.beats;
        writes = progress.writes ∙ ap (λ l. l ++ heartbeats progress.beats) w;
      }

module _ {A P X Rect Tree Invalid : Type 0} (parse_address : String → Option A)
    (around : Surroundings P X) (rs : Rstar Rect Tree) (order : Iteration) (fl : Floats)
    (E : Type 0) (evdev_name : Handle → Kernel → Option String) (fb : FlatBuffers Invalid) where
  -- When neither the sample nor the version is asked for, the settings load, the address parses, the
  -- chosen configuration's name is known, the system does what it is asked, its clock never goes back
  -- from the beginning of the loop on, the response is a whole handshake, and in each turn the datagram,
  -- if there is one, holds whole messages that give events, the client on Linux comes through all the
  -- turns without a panic or a failure. At the end its device is valid with the chosen configuration,
  -- the readers agree with it, nothing waits in the connection, and the control socket has been sent
  -- the client's handshake, then the chosen polling interval unless that is 4000, and then whole
  -- heartbeats and nothing else.
  pub client-Serves :
      (args : Args) (settings : Settings) (ip : String) (address : A) (config : Config Tree)
      (h : NetProtocol.Handshake) (port opened : ℕ) (rounds : List Round)
      → args.sample_config ≡ false
      → args.version ≡ false
      → load_config around ≡ returns (ok settings)
      → or_option args.ip settings.ip ≡ some ip
      → parse_address ip ≡ some address
      → config_named rs (chosen args.configuration settings.configuration "standart") ≡ some config
      → Frames fb (handshake_content h)
      → Forward opened rounds
      → All (Fine rs order fl E fb) rounds
      → Serves fb config port (interval_of args settings) (
          client parse_address around fb
            (linux_platform rs order fl E evdev_name)
            args
            (smooth port opened (fb.finished_data (handshake_content h)) rounds))
  unfolding new_device
  client-Serves args settings ip address config h port opened rounds s v l i p n f clock fine =
      let platform = linux_platform rs order fl E evdev_name in
      let interval = interval_of args settings in
      let response = fb.finished_data (handshake_content h) in
      let plan : Plan A = record {
        address = address;
        port = chosen args.port settings.port 5000;
        interval = interval;
        configuration = chosen args.configuration settings.configuration "standart";
        debug = args.debug || chosen none settings.debug false;
      } in
      let started : Started = record {
        conn = record { incoming_buffer = []; outgoing_buffer = [] };
        heartbeat_freq = h.heartbeat_freq;
        control = opening fb port interval;
        pad = heartbeat_magic;
      } in
      let answered : start fb port interval (all_well response) ≡ returns (ok started) =
        subst (λ r. start fb port interval (all_well r) ≡ returns (ok started))
          (append-nil response) (start_answered fb port interval h [] f) in
      let e =
        client_connects parse_address around fb platform args _ plan
          (decide_connects parse_address around args settings ip address s v l i p)
        ∙ connect_runs parse_address around fb platform plan port opened rounds response started
            (new_device config, untouched)
            (platform_creates rs order fl E evdev_name plan.configuration config n) answered in
      subst (Serves fb config port interval) (sym e) (
        turns-Serves rs order fl E fb h.heartbeat_freq rounds config port interval
          (opened_session started (new_device config, untouched) opened) refl refl clock fine
          (opened-Calm config started opened refl refl))
