-- ===== src/Client/Settings.antt =====
-- client/packages/vitaoxipad_config/src/lib.rs, and what main.rs makes of the arguments and the
-- settings. Paths, files, the environment and the crates config and toml are parameters.
pub mod Laws
pub mod Decided
use Prim.Native.String.{String}
use vita_oxi_pad.Base.{
  ℕ, max, Bool, false, ◌||◌, List, [], ◌∷◌, ◌++◌, Option, none, some, Result, ok, err, Outcome,
  panics, returns, if◌then◌else◌,
}
use vita_oxi_pad.Client.Startup.{polling_interval}

-- `Config` of the settings.
pub record Settings : Type 0 where
  pub ip : Option String
  pub port : Option ℕ
  pub configuration : Option String
  pub polling_interval : Option ℕ
  pub debug : Option Bool

-- `Config::default`
unfoldable pub default_settings : Settings
default_settings = record {
  ip = some "192.168.0.100";
  port = some 5000;
  configuration = some "standart";
  polling_interval = some 6000;
  debug = some false;
}

-- A source that is added to the loader.
pub data Source (P : Type 0) : Type 0 where
  file : P → Source P
  environment : String → Source P

-- Paths, what `home_dir` and the variable `USERPROFILE` give, the files, and the crates: `E` is what
-- `eyre` reports.
pub record Surroundings (P E : Type 0) : Type 0 where
  pub path : String → P
  pub join : P → String → P
  pub to_str : P → Option String
  pub home_dir : Option P
  pub user_profile : Option String
  pub exists : P → Bool
  pub read_to_string : String → Result String E
  pub from_str : String → Result Settings E
  -- `settings.build()?.try_deserialize()`
  pub build : List (Source P) → Result Settings E

module _ {P E : Type 0} (around : Surroundings P E) where
  unfoldable pub validate_toml : String → Result (Unit {0}) E
  validate_toml file_path = elim (around.read_to_string file_path) [
    | err e ↦ err e
    | ok content ↦ elim (around.from_str content) [ err e ↦ err e | ok settings ↦ ok tt ]
  ]

  -- The paths below the home directory.
  abbrev pub home_paths : Option P → List P
  home_paths none = []
  home_paths (some home) =
      around.join home "vitaoxipad.toml"
      ∷ around.join (around.join home "vitaoxipad") "config.toml"
      ∷ around.join home ".vitaoxipad"
      ∷ around.join (around.join home ".config") "vitaoxipad.toml"
      ∷ around.join (around.join home "Documents") "vitaoxipad.toml"
      ∷ around.join (around.join (around.join home "Documents") "vitaoxipad") "config.toml"
      ∷ around.join (around.join (around.join home "Documents") "vitaoxipad") "vitaoxipad.toml"
      ∷ []

  abbrev pub user_paths : Option String → List P
  user_paths none = []
  user_paths (some user_dir) =
      around.join (around.join (around.path user_dir) "vitaoxipad") "vitaoxipad.toml" ∷ []

  unfoldable pub get_config_file_paths : List P
  get_config_file_paths =
      around.path "config.toml" ∷ home_paths around.home_dir ++ user_paths around.user_profile

  -- The loop over the paths, with its `break`: the file that is added, if one is.
  unfoldable pub find_config : List P → Outcome (Result (Option P) E)
  unfolding validate_toml
  find_config [] = returns (ok none)
  find_config (p ∷ ps) =
      let rest = find_config ps in
      if around.exists p
      then elim (around.to_str p) [
        | none ↦ panics
        | some s ↦ elim (validate_toml s) [ err e ↦ returns (err e) | ok u ↦ returns (ok (some p)) ]
      ]
      else rest

  -- The sources, the file first.
  abbrev pub sources : Option P → List (Source P)
  sources none = environment "VITA_" ∷ []
  sources (some p) = file p ∷ environment "VITA_" ∷ []

  unfoldable pub load_config : Outcome (Result Settings E)
  unfolding find_config get_config_file_paths
  load_config = elim (find_config get_config_file_paths) [
    | panics ↦ panics
    | returns (err e) ↦ returns (err e)
    | returns (ok found) ↦ returns (around.build (sources found))
  ]

-- The arguments that the settings can stand in for, and the three switches.
pub record Args : Type 0 where
  pub port : Option ℕ
  pub configuration : Option String
  pub polling_interval : Option ℕ
  pub debug : Bool
  pub ip : Option String
  pub version : Bool
  pub sample_config : Bool

-- `a.or(b)` and `a.unwrap_or(b)`
abbrev pub or_option {ℓ} : {A : Type ℓ} → Option A → Option A → Option A
or_option none b = b
or_option (some a) b = some a

abbrev pub unwrap_or {ℓ} : {A : Type ℓ} → Option A → A → A
unwrap_or none b = b
unwrap_or (some a) b = a

-- What the arguments become.
unfoldable pub merge : Args → Settings → Args
merge args config = record args {
  port = or_option args.port config.port;
  configuration = or_option args.configuration config.configuration;
  polling_interval = or_option args.polling_interval config.polling_interval;
  ip = or_option args.ip config.ip;
  debug = args.debug || unwrap_or config.debug false;
}

-- What the client runs with. `A` is an IP address.
pub record Plan (A : Type 0) : Type 0 where
  pub address : A
  pub port : ℕ
  pub interval : ℕ
  pub configuration : String
  pub debug : Bool

-- What `main` does before it opens a connection.
pub data Decision (A E : Type 0) : Type 0 where
  prints_sample prints_version lacks_address : Decision A E
  load_failed : E → Decision A E
  bad_address : String → Decision A E
  connects : Plan A → Decision A E

abbrev pub net_port : ℕ
net_port = 5000

module _ {A P E : Type 0} (parse_address : String → Option A) (around : Surroundings P E) where
  -- With the merged arguments.
  unfoldable pub plan : Args → Decision A E
  plan args = if args.version then prints_version else elim args.ip [
    | none ↦ lacks_address
    | some ip ↦ elim (parse_address ip) [
      | none ↦ bad_address ip
      | some address ↦ connects (record {
        address = address;
        port = unwrap_or args.port net_port;
        interval = polling_interval args.polling_interval;
        configuration = unwrap_or args.configuration "standart";
        debug = args.debug;
      })
    ]
  ]

  -- `main` up to the address.
  unfoldable pub decide : Args → Outcome (Decision A E)
  unfolding merge plan load_config
  decide args = if args.sample_config then returns prints_sample else elim (load_config around) [
    | panics ↦ panics
    | returns (err e) ↦ returns (load_failed e)
    | returns (ok config) ↦ returns (plan (merge args config))
  ]
