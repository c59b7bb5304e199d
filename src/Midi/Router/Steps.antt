-- ===== src/Midi/Router/Steps.antt =====
-- The steps of a router, as its users and its flushing thread take turns (core/midi/midi_router.py),
-- each with the messages that it adds.
use control_ok_a_v.Base.{
  ℕ, ◌≡◌, ◌≢◌, Bool, true, false, ◌&&◌, ◌==◌, List, [], ◌∷◌, ◌++◌, Option, none, some, String,
  if◌then◌else◌, ok, map,
}
use control_ok_a_v.Base.Int.{ℤ, pos_part}
use control_ok_a_v.Base.Dict.{Dict, lookup, nat_eq}
use control_ok_a_v.Midi.Router.Model.{
  Mido, Effect, sent, failed, not_open, discarded, MidiRouter, emit, opened_buses, range,
  take_pending, deliver, close, send_note_on, send_note_off, send_raw_midi, panic_all_notes_off,
}

-- A router, and what the flush that goes on has taken out and not yet sent.
pub record Flow (Msg : Type 0) : Type 0 where
  pub router : MidiRouter Msg
  pub in_flight : List (ℕ × Msg)

module _ {Msg : Type 0} where
  abbrev pub if_open : Option String → ℕ × Msg → List (ℕ × Msg) → List (ℕ × Msg)
  if_open none m ms = ms
  if_open (some port) m ms = m ∷ ms

  -- The messages whose bus has a port.
  abbrev pub accepted : Dict ℕ String → List (ℕ × Msg) → List (ℕ × Msg)
  accepted ports [] = []
  accepted ports ((bus, msg) ∷ ms) = if_open (lookup bus ports) (bus, msg) (accepted ports ms)

  -- The messages that were handed to ports, in order: those that were sent, and those that failed.
  abbrev pub handed : List (Effect Msg) → List (ℕ × Msg)
  handed [] = []
  handed (sent bus msg ∷ es) = (bus, msg) ∷ handed es
  handed (failed bus msg ∷ es) = (bus, msg) ∷ handed es
  handed (not_open bus msg ∷ es) = handed es
  handed (discarded bus msg ∷ es) = handed es

  -- The messages that were taken out of the queue and dealt with: those, and the ones whose port was closed.
  abbrev pub tried : List (Effect Msg) → List (ℕ × Msg)
  tried [] = []
  tried (sent bus msg ∷ es) = (bus, msg) ∷ tried es
  tried (failed bus msg ∷ es) = (bus, msg) ∷ tried es
  tried (not_open bus msg ∷ es) = (bus, msg) ∷ tried es
  tried (discarded bus msg ∷ es) = tried es

  -- What a `send` leaves.
  abbrev pub attempted : Bool → ℕ × Msg → Effect Msg
  attempted true (bus, msg) = failed bus msg
  attempted false (bus, msg) = sent bus msg

  -- The bus of a message has a port.
  abbrev pub IsOpen : Dict ℕ String → ℕ × Msg → Type 0
  IsOpen ports m = lookup m.0 ports ≢ none

module _ {Msg : Type 0} (mido : Mido Msg) where
  -- A note that is played: without velocity it is an end, where that is configured.
  abbrev pub note_message : Bool → ℕ → ℕ → ℕ → Msg
  note_message ends_on_vel0 ch note vel =
      if vel == 0 && ends_on_vel0 then mido.note_off ch note 0 else mido.note_on ch note vel

  -- The end of all notes on every channel of a bus, and of each bus.
  abbrev pub channel_ends : ℕ → List ℕ → List (ℕ × Msg)
  channel_ends bus [] = []
  channel_ends bus (ch ∷ chs) = (bus, mido.control_change ch 123 0) ∷ channel_ends bus chs

  abbrev pub bus_ends : List ℕ → List (ℕ × Msg)
  bus_ends [] = []
  bus_ends (bus ∷ buses) = channel_ends bus (range 0 16) ++ bus_ends buses

  pub data Step : Flow Msg → List (ℕ × Msg) → Flow Msg → Type 0 where
    note_on_called :
        (r r' : MidiRouter Msg) (flight : List (ℕ × Msg)) (bus : ℕ) (ch note vel : ℤ)
        → send_note_on mido bus ch note vel r ≡ ok r'
        → Step
            (record { router = r; in_flight = flight })
            (accepted r.ports (
              (
                bus,
                note_message r.send_noteoff_on_vel0 (pos_part ch) (pos_part note) (pos_part vel),
              )
              ∷ []))
            (record { router = r'; in_flight = flight })
    note_off_called :
        (r r' : MidiRouter Msg) (flight : List (ℕ × Msg)) (bus : ℕ) (ch note vel : ℤ)
        → send_note_off mido bus ch note vel r ≡ ok r'
        → Step
            (record { router = r; in_flight = flight })
            (accepted r.ports
              ((bus, mido.note_off (pos_part ch) (pos_part note) (pos_part vel)) ∷ []))
            (record { router = r'; in_flight = flight })
    raw_called :
        (r r' : MidiRouter Msg) (flight : List (ℕ × Msg)) (bus : ℕ) (payload : List ℤ) (msg : Msg)
        → send_raw_midi mido bus payload r ≡ ok r'
        → mido.from_bytes (map pos_part payload) ≡ some msg
        → Step
            (record { router = r; in_flight = flight })
            (accepted r.ports ((bus, msg) ∷ []))
            (record { router = r'; in_flight = flight })
    panicked :
        (r : MidiRouter Msg) (flight : List (ℕ × Msg))
        → Step
            (record { router = r; in_flight = flight })
            (accepted r.ports (bus_ends (opened_buses r.ports)))
            (record { router = panic_all_notes_off mido r; in_flight = flight })
    -- A flush takes out the queue, and then sends, one by one.
    taken :
        (r : MidiRouter Msg)
        → Step
            (record { router = r; in_flight = [] })
            []
            (record { router = (take_pending r).1; in_flight = (take_pending r).0 })
    delivered :
        (r : MidiRouter Msg) (raises : Bool) (m : ℕ × Msg) (rest : List (ℕ × Msg))
        → Step
            (record { router = r; in_flight = m ∷ rest })
            []
            (record { router = (deliver raises m r).1; in_flight = rest })
    -- The port was looked up before, and `send` returns, or raises, now.
    sent_late :
        (r : MidiRouter Msg) (raises : Bool) (m : ℕ × Msg) (rest : List (ℕ × Msg))
        → Step
            (record { router = r; in_flight = m ∷ rest })
            []
            (record { router = emit (attempted raises m) r; in_flight = rest })
    -- The bus was looked up before, outside of the lock, and the message is appended now.
    appended_late :
        (r : MidiRouter Msg) (flight : List (ℕ × Msg)) (m : ℕ × Msg)
        → Step
            (record { router = r; in_flight = flight })
            (m ∷ [])
            (record { router = record r { queue = r.queue ++ (m ∷ []) }; in_flight = flight })
    -- The closing waits for the thread two seconds at most: messages may be in flight still.
    closed :
        (r : MidiRouter Msg) (flight : List (ℕ × Msg)) (raises : ℕ → Bool)
        → Step
            (record { router = r; in_flight = flight })
            []
            (record { router = close raises r; in_flight = flight })

  -- Steps one after the other, with all messages that they add.
  pub data Run (s : Flow Msg) : List (ℕ × Msg) → Flow Msg → Type 0 where
    begun : Run s [] s
    step :
        {xs : List (ℕ × Msg)} {ys : List (ℕ × Msg)} {t u : Flow Msg}
        → Run s xs t
        → Step t ys u
        → Run s (xs ++ ys) u

  -- No closing overtakes another thread: when the router is closed the thread has ended, with nothing in
  -- flight, and a message that is appended late still has a port.
  abbrev pub IsOrderlyStep : {s t : Flow Msg} {xs : List (ℕ × Msg)} → Step s xs t → Type 0
  IsOrderlyStep (appended_late r flight m) = IsOpen r.ports m
  IsOrderlyStep (closed r flight raises) = flight ≡ []
  IsOrderlyStep (note_on_called r r' flight bus ch note vel e) = Unit
  IsOrderlyStep (note_off_called r r' flight bus ch note vel e) = Unit
  IsOrderlyStep (raw_called r r' flight bus payload msg e is) = Unit
  IsOrderlyStep (panicked r flight) = Unit
  IsOrderlyStep (taken r) = Unit
  IsOrderlyStep (delivered r raises m rest) = Unit
  IsOrderlyStep (sent_late r raises m rest) = Unit

  abbrev pub IsOrderly : {s t : Flow Msg} {xs : List (ℕ × Msg)} → Run s xs t → Type 0
  IsOrderly begun = Unit
  IsOrderly (step run one) = IsOrderly run × IsOrderlyStep one
