-- ===== src/Client/Settings/Decided.antt =====
-- The part of `main` in main.rs before the connection: when the client goes on to connect.
use Prim.Native.String.{String}
use vita_oxi_pad.Base.{
  max, ◌≡◌, ◌↔◌, ◌∙◌, refl, sym, ap, false, ◌||◌, Option, none, some, Result, ok, err, Outcome,
  panics, returns, arith, Bool-cases, Option-cases, inl, inr,
}
use vita_oxi_pad.Client.Settings.{
  Settings, Surroundings, load_config, Args, or_option, merge, Plan, Decision, connects, plan,
  decide,
}
use vita_oxi_pad.Client.Settings.Laws.{chosen, decide_connects}

-- The plan by the arguments, the settings and an address.
abbrev pub chosen_plan : {A : Type 0} → Args → Settings → A → Plan A
chosen_plan args config address = record {
  address = address;
  port = chosen args.port config.port 5000;
  interval = max (chosen args.polling_interval config.polling_interval 4000) 4000;
  configuration = chosen args.configuration config.configuration "standart";
  debug = args.debug || chosen none config.debug false;
}

connects_inj :
    {A E : Type 0} {p q : Plan A}
    → ◌≡◌ {A = Outcome (Decision A E)} (returns (connects p)) (returns (connects q))
    → p ≡ q
connects_inj e = cc

module _ {A P E : Type 0} (parse_address : String → Option A) (around : Surroundings P E) where
  -- What the client needs to connect by a plan.
  pub record Connectable (args : Args) (p : Plan A) : Type 0 where
    pub config : Settings
    pub ip : String
    pub address : A
    pub no_sample : args.sample_config ≡ false
    pub no_version : args.version ≡ false
    pub loaded : load_config around ≡ returns (ok config)
    pub asked : or_option args.ip config.ip ≡ some ip
    pub parsed : parse_address ip ≡ some address
    pub planned : p ≡ chosen_plan args config address

  Connectable-loaded :
      (args : Args) (p : Plan A) (o : Outcome (Result Settings E))
      → load_config around ≡ o
      → decide parse_address around args ≡ returns (connects p)
      → Connectable args p
  unfolding decide plan merge
  Connectable-loaded args p panics l e = absurd (ground arith)
  Connectable-loaded args p (returns (err x)) l e = absurd (ground arith)
  Connectable-loaded args p (returns (ok config)) l e = elim (Bool-cases args.sample_config) [
    | inl s ↦ absurd (ground arith)
    | inr s ↦ elim (Bool-cases args.version) [
      | inl v ↦ absurd (ground arith)
      | inr v ↦ elim (Option-cases (or_option args.ip config.ip)) [
        | inl i ↦ absurd (ground arith)
        | inr (ip, i) ↦ elim (Option-cases (parse_address ip)) [
          | inl q ↦ absurd (ground arith)
          | inr (address, q) ↦ record {
            config = config;
            ip = ip;
            address = address;
            no_sample = s;
            no_version = v;
            loaded = l;
            asked = i;
            parsed = q;
            planned =
                connects_inj
                  (sym e ∙ decide_connects parse_address around args config ip address s v l i q);
          }
        ]
      ]
    ]
  ]

  -- The client goes on to connect, and by which plan, exactly when neither the sample nor the version is
  -- asked for, the settings load, the arguments or else the settings have an address, and it parses;
  -- the plan has each value from the arguments, else from the settings, else its default, the polling
  -- interval raised to 4000 at least, and the debug mode if either asks for it.
  pub decide_connects_iff :
      (args : Args) (p : Plan A)
      → (decide parse_address around args ≡ returns (connects p)) ↔ Connectable args p
  decide_connects_iff args p = (
    λ e. Connectable-loaded args p (load_config around) refl e,
    λ c.
        decide_connects parse_address around args c.config c.ip c.address c.no_sample c.no_version
          c.loaded c.asked c.parsed
        ∙ ap (λ q. returns (connects q)) (sym c.planned),
  )
