-- ===== src/Client/Session/Linux.antt =====
-- The client loop with the Linux device, and readers of its handles: from bytes to what is seen.
use vita_oxi_pad.Base.{
  ℕ, suc, ◌≡◌, refl, sym, ap, arith, ◌∙◌, List, [], ◌∷◌, ◌++◌, none, some, Result, ok, err, Outcome,
  panics, returns, All, length,
}
use vita_oxi_pad.NetProtocol.{FlatBuffers}
use vita_oxi_pad.Reports.{MainReport}
use vita_oxi_pad.Protocol.Events.{Event}
use vita_oxi_pad.Protocol.Connection.{next}
use vita_oxi_pad.Protocol.Connection.Stream.{
  Message, stream, Delivers, items_of, messages, events-stream,
}
use vita_oxi_pad.VirtualDevice.Button.{Iteration}
use vita_oxi_pad.VirtualDevice.Touch.{Rstar}
use vita_oxi_pad.VirtualDevice.Config.{Config}
use vita_oxi_pad.VirtualDevice.Floats.{Floats}
use vita_oxi_pad.VirtualDevice.Linux.Events.{View}
use vita_oxi_pad.VirtualDevice.Linux.Report.{VitaDevice, WriteError, send_report}
use vita_oxi_pad.VirtualDevice.Linux.Report.Readers.{Readers, observe, IsValid}
use vita_oxi_pad.VirtualDevice.Linux.Report.Gamepad.{GamepadShows}
use vita_oxi_pad.VirtualDevice.Linux.Report.Laws.{InSync, Reported, send_report-Reported}
use vita_oxi_pad.Client.Session.{VirtualDevice, handle_events}
use vita_oxi_pad.Client.Session.Accepted.{accepted, newest, send_all}
use vita_oxi_pad.Client.Session.Pads.{handle_events_refines}

module _ {Tree E : Type 0} where
  -- A result of `send_report`, as the loop's device gives it.
  abbrev both :
      Outcome (Result Readers (WriteError E) × VitaDevice Tree)
      → Outcome (Result (VitaDevice Tree × Readers) (WriteError E))
  both panics = panics
  both (returns (err e, d)) = returns (err e)
  both (returns (ok readers, d)) = returns (ok (d, readers))

module _ {Rect Tree : Type 0} (rs : Rstar Rect Tree) (order : Iteration) (fl : Floats)
    (E : Type 0) where
  -- The device with the readers of its handles, whose writes succeed.
  unfoldable pub linux : VirtualDevice (VitaDevice Tree × Readers) (WriteError E)
  linux = record { send_report = λ r s. both (send_report rs order fl {E = E} observe r s.0 s.1) }

  -- The gamepad shows the last of the reports, if there is one.
  abbrev pub Latest : List MainReport → Config Tree → View → Type 0
  Latest [] config v = Unit {0}
  Latest (r ∷ []) config v = GamepadShows rs r config v
  Latest (r ∷ r' ∷ reports) config v = Latest (r' ∷ reports) config v

  -- What sending a list of reports gives.
  pub record AllReported (reports : List MainReport) (d : VitaDevice Tree) (rd : Readers)
      : Type 0 where
    pub after : VitaDevice Tree
    pub readers : Readers
    pub runs : send_all linux reports (d, rd) ≡ returns (ok (after, readers))
    pub valid : IsValid after
    pub synced : InSync after readers
    pub same_config : after.config ≡ d.config
    pub latest : Latest reports d.config readers.gamepad

  linux_sends :
      (r : MainReport) (d : VitaDevice Tree) (rd : Readers) (p : Reported rs order fl E r d rd)
      → linux.send_report r (d, rd) ≡ returns (ok (p.after, p.readers))
  unfolding linux
  linux_sends r d rd p = ap both p.runs

  send_all_cons :
      (r : MainReport) (reports : List MainReport) (s s' : VitaDevice Tree × Readers)
      → linux.send_report r s ≡ returns (ok s')
      → send_all linux (r ∷ reports) s ≡ send_all linux reports s'
  send_all_cons r reports s s' h = rw (h, send_all) refl

  Latest-cons :
      (r : MainReport) (reports : List MainReport) (config config' : Config Tree) (v v' : View)
      → config' ≡ config
      → GamepadShows rs r config v
      → (reports ≡ [] → v' ≡ v)
      → Latest reports config' v'
      → Latest (r ∷ reports) config v'
  Latest-cons r [] config config' v v' c g same l = rw (same refl) g
  Latest-cons r (r' ∷ reports) config config' v v' c g same l = rw c at l

  sent_none :
      (reports : List MainReport) (d : VitaDevice Tree) (rd : Readers)
      (q : AllReported reports d rd)
      → reports ≡ []
      → q.readers.gamepad ≡ rd.gamepad
  sent_none [] d rd q e =
      let h : rd ≡ q.readers = ground (arith, q.runs) in ap (λ v. v.gamepad) (sym h)
  sent_none (r ∷ reports) d rd q e = absurd (ground arith)

  send_all-AllReported :
      (reports : List MainReport) (d : VitaDevice Tree) (rd : Readers)
      → IsValid d
      → InSync d rd
      → AllReported reports d rd
  send_all-AllReported [] d rd v s = record {
    after = d;
    readers = rd;
    runs = refl;
    valid = v;
    synced = s;
    same_config = refl;
    latest = tt;
  }
  send_all-AllReported (r ∷ reports) d rd v s =
      let p = send_report-Reported rs order fl E r d rd v s in
      let q = send_all-AllReported reports p.after p.readers p.valid p.synced in
      record {
        after = q.after;
        readers = q.readers;
        runs = send_all_cons r reports (d, rd) (p.after, p.readers) (linux_sends r d rd p) ∙ q.runs;
        valid = q.valid;
        synced = q.synced;
        same_config = q.same_config ∙ p.same_config;
        latest =
            Latest-cons r reports d.config p.after.config p.readers.gamepad q.readers.gamepad
              p.same_config p.gamepad (sent_none reports p.after p.readers q) q.latest;
      }

module _ {Rect Tree Invalid : Type 0} (rs : Rstar Rect Tree) (order : Iteration) (fl : Floats)
    (E : Type 0) (fb : FlatBuffers Invalid) where
  -- From bytes to the gamepad. Where the device is valid and the readers agree with it, a buffer of
  -- whole messages that each give an event, with a tail on which `next` gives nothing, is handled
  -- without a panic and without an error: the accepted reports are sent, the device stays valid and
  -- in agreement with the readers, its configuration is unchanged, the gamepad shows the last of
  -- the accepted reports, if there is one, and the rest of the tail stays in the buffer.
  pub messages_shown :
      (ms : List (Message × Event)) (tail left : List ℕ) (d : VitaDevice Tree) (rd : Readers)
      (t : ℕ)
      → All (Delivers fb) ms
      → next fb tail ≡ returns (none, left)
      → IsValid d
      → InSync d rd
      → (q : AllReported rs order fl E (accepted t (items_of fb ms)) d rd) × (handle_events fb
            (linux rs order fl E)
            (suc (length (stream fb (messages fb ms) ++ tail)))
            (stream fb (messages fb ms) ++ tail)
            (record { device = (d, rd); last_timestamp = t })
          ≡ some (
              returns (
                ok (
                  record {
                    device = (q.after, q.readers);
                    last_timestamp = newest t (accepted t (items_of fb ms));
                  },
                  left,
                ))))
  messages_shown ms tail left d rd t a e v s =
      let q = send_all-AllReported rs order fl E (accepted t (items_of fb ms)) d rd v s in
      (
        q,
        (handle_events_refines fb (linux rs order fl E) _ left (items_of fb ms) (d, rd)
            (q.after, q.readers) t (events-stream fb ms tail left a e) q.runs).0,
      )
