-- ===== src/Client/Session/Accepted.antt =====
-- Which reports of a list of items are newer than every one before them, and a device that is sent
-- reports in a row.
use vita_oxi_pad.Base.{
  ℕ, ◌<◌, ◌≡◌, refl, List, [], ◌∷◌, map, Result, ok, err, Outcome, panics, returns, arith, leb,
  if◌then◌else◌, Bool-cases, inl, inr,
}
use vita_oxi_pad.Reports.{MainReport}
use vita_oxi_pad.Protocol.Events.{
  handshake_response_received, heartbeat_received, pad_data_received,
}
use vita_oxi_pad.Protocol.Connection.{Item}
use vita_oxi_pad.Client.Session.{VirtualDevice}

module _ {Invalid : Type 0} where
  -- The reports among the items that are newer than `t` and than every accepted one before them.
  abbrev pub accepted : ℕ → List (Item Invalid) → List MainReport
  accepted t [] = []
  accepted t (ok (pad_data_received r) ∷ is) =
      if leb r.timestamp t then accepted t is else r ∷ accepted r.timestamp is
  accepted t (ok (handshake_response_received h) ∷ is) = accepted t is
  accepted t (ok heartbeat_received ∷ is) = accepted t is
  accepted t (err e ∷ is) = accepted t is

-- Each time stamp is above the one before it, and the first above `t`.
abbrev pub Increasing : ℕ → List MainReport → Type 0
Increasing t [] = Unit {0}
Increasing t (r ∷ rs) = (t < r.timestamp) × Increasing r.timestamp rs

-- The last time stamp, or `t`.
abbrev pub newest : ℕ → List MainReport → ℕ
newest t [] = t
newest t (r ∷ rs) = newest r.timestamp rs

module _ {D E : Type 0} (dev : VirtualDevice D E) where
  -- The device after each report has been sent to it, if no send fails.
  abbrev pub send_all : List MainReport → D → Outcome (Result D E)
  send_all [] d = returns (ok d)
  send_all (r ∷ rs) d = elim (dev.send_report r d) [
    | panics ↦ panics
    | returns (err e) ↦ returns (err e)
    | returns (ok d') ↦ send_all rs d'
  ]

module _ {Invalid : Type 0} where
  -- What is accepted has rising time stamps.
  pub accepted-Increasing : (t : ℕ) (is : List (Item Invalid)) → Increasing t (accepted t is)
  accepted-Increasing t [] = tt
  accepted-Increasing t (ok (pad_data_received r) ∷ is) = elim (Bool-cases (leb r.timestamp t)) [
    | inl e ↦ rw e (accepted-Increasing t is)
    | inr e ↦ rw e (ground arith, accepted-Increasing r.timestamp is)
  ]
  accepted-Increasing t (ok (handshake_response_received h) ∷ is) = accepted-Increasing t is
  accepted-Increasing t (ok heartbeat_received ∷ is) = accepted-Increasing t is
  accepted-Increasing t (err e ∷ is) = accepted-Increasing t is

module _ (Invalid : Type 0) where
  -- Reports that come in rising order are all accepted.
  accepted_all :
      (t : ℕ) (rs : List MainReport)
      → Increasing t rs
      → accepted {Invalid = Invalid} t (map (λ r. ok (pad_data_received r)) rs) ≡ rs
  accepted_all t [] h = refl
  accepted_all t (r ∷ rs) h = ground (arith, accepted_all r.timestamp rs h.1)
