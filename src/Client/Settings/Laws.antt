-- ===== src/Client/Settings/Laws.antt =====
-- Which settings the client runs with.
use Prim.Native.String.{String}
use vita_oxi_pad.Base.{
  max, ◌≡◌, refl, false, ◌||◌, List, [], ◌∷◌, Option, none, some, Result, ok, err, Outcome, panics,
  returns, arith, All, if◌then◌else◌,
}
use vita_oxi_pad.Client.Startup.{polling_interval}
use vita_oxi_pad.Client.Settings.{
  Settings, environment, Surroundings, validate_toml, get_config_file_paths, find_config,
  load_config, Args, or_option, merge, prints_version, lacks_address, connects, plan, decide,
}

module _ {P E : Type 0} (around : Surroundings P E) where
  abbrev pub Absent : P → Type 0
  Absent p = around.exists p ≡ false

  -- What a file that is there gives.
  abbrev pub added : P → Outcome (Result (Option P) E)
  added p = elim (around.to_str p) [
    | none ↦ panics
    | some s ↦ elim (validate_toml around s) [
      | err e ↦ returns (err e)
      | ok u ↦ returns (ok (some p))
    ]
  ]

  find_config_none : (ps : List P) → All Absent ps → find_config around ps ≡ returns (ok none)
  unfolding find_config
  find_config_none [] h = refl
  find_config_none (p ∷ ps) h = rw (h.0) (find_config_none ps h.1)

  -- Without a file at any of the paths the environment alone is the source.
  pub load_config_none :
      All Absent (get_config_file_paths around)
      → load_config around ≡ returns (around.build (environment "VITA_" ∷ []))
  unfolding load_config
  load_config_none a = rw (find_config_none (get_config_file_paths around) a, load_config) refl

-- An argument comes before a setting, and a setting before the default.
abbrev pub chosen {ℓ} : {A : Type ℓ} → (argument setting : Option A) → (default_value : A) → A
chosen (some a) setting d = a
chosen none (some s) d = s
chosen none none d = d

module _ {A P E : Type 0} (parse_address : String → Option A) (around : Surroundings P E) where
  -- When neither the sample nor the version is asked for, the settings load, and there is an address
  -- that parses, the client goes on to connect: with each value from the arguments, else from the
  -- settings, else its default, the polling interval raised to 4000 at least, and with the debug mode
  -- if either asks for it.
  pub decide_connects :
      (args : Args) (config : Settings) (ip : String) (address : A)
      → args.sample_config ≡ false
      → args.version ≡ false
      → load_config around ≡ returns (ok config)
      → or_option args.ip config.ip ≡ some ip
      → parse_address ip ≡ some address
      → decide parse_address around args
        ≡ returns (
            connects (record {
              address = address;
              port = chosen args.port config.port 5000;
              interval = max (chosen args.polling_interval config.polling_interval 4000) 4000;
              configuration = chosen args.configuration config.configuration "standart";
              debug = args.debug || chosen none config.debug false;
            }))
  unfolding decide plan merge polling_interval
  decide_connects args config ip address s v l i p = rw (s, l) (ground arith)

  -- When the sample is not asked for and the settings load, but neither the arguments nor the settings
  -- have an address, the client does not connect: it prints the version, if that is asked for, or that
  -- the address is missing.
  pub decide_lacks :
      (args : Args) (config : Settings)
      → args.sample_config ≡ false
      → load_config around ≡ returns (ok config)
      → args.ip ≡ none
      → config.ip ≡ none
      → decide parse_address around args
        ≡ returns (if args.version then prints_version else lacks_address)
  unfolding decide plan merge
  decide_lacks args config s l i c = rw (s, l) (ground arith)
