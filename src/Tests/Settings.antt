-- ===== src/Tests/Settings.antt =====
-- A home directory in which one of the files is there.
use Prim.Native.String.{String}
use text.Mathlib.Text.{◌==◌}
use vita_oxi_pad.Base.{
  ℕ, ◌≡◌, ◌↔◌, refl, Bool, true, false, List, [], ◌∷◌, ◌++◌, none, some, ok, returns,
}
use vita_oxi_pad.Client.Settings.{Settings, Surroundings, load_config, Args, Plan, connects, decide}
use vita_oxi_pad.Client.Settings.Decided.{Connectable, decide_connects_iff}

-- A path is the list of its parts.

abbrev pub found : Settings
found = record {
  ip = some "10.0.0.7";
  port = none;
  configuration = some "rear_touchpad";
  polling_interval = some 1000;
  debug = some true;
}

abbrev is_found : List String → Bool
is_found (a ∷ b ∷ []) = b == ".vitaoxipad"
is_found _ = false

abbrev pub home : Surroundings (List String) String
home = record {
  path = λ s. s ∷ [];
  join = λ p s. p ++ s ∷ [];
  to_str = λ p. some "~/.vitaoxipad";
  home_dir = some ("~" ∷ []);
  user_profile = none;
  exists = is_found;
  read_to_string = λ s. ok "";
  from_str = λ s. ok found;
  build = λ s. ok found;
}

abbrev pub arguments : Args
arguments = record {
  port = some 6000;
  configuration = none;
  polling_interval = none;
  debug = false;
  ip = none;
  version = false;
  sample_config = false;
}

abbrev a_plan : Plan ℕ
a_plan = record {
  address = 7;
  port = 6000;
  interval = 4000;
  configuration = "rear_touchpad";
  debug = true;
}

decide_connects_iff_example :
    (decide {A = ℕ} (λ s. some 7) home arguments ≡ returns (connects a_plan))
    ↔ Connectable (λ s. some 7) home arguments a_plan
decide_connects_iff_example = decide_connects_iff {A = ℕ} (λ s. some 7) home arguments a_plan

-- What that plan is made by.
a_plan-Connectable : Connectable {A = ℕ} (λ s. some 7) home arguments a_plan
unfolding load_config
a_plan-Connectable = record {
  config = found;
  ip = "10.0.0.7";
  address = 7;
  no_sample = refl;
  no_version = refl;
  loaded = refl;
  asked = refl;
  parsed = refl;
  planned = refl;
}
