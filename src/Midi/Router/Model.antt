-- ===== src/Midi/Router/Model.antt =====
-- `MidiRouter` (core/midi/midi_router.py): the queue, the methods that fill it, `flush` and `close`.
-- `mido.Message` is any type with the operations that the code uses.
use control_ok_a_v.Base.{
  ℕ, zero, suc, ◌+◌, Bool, true, false, ◌&&◌, ◌||◌, List, [], ◌∷◌, ◌++◌, Option, none, some, String,
  leb, ◌==◌, if◌then◌else◌, Result, ok, err, ◌>>=◌, ◌>>◌, raise_if,
}
use control_ok_a_v.Base.Int.{ℤ, pos, pos_part, ltb_ℤ}
use control_ok_a_v.Base.Dict.{Dict, lookup, erase, nat_eq}

-- `mido.Message("note_on", ...)` and so on; `none` is an exception of `from_bytes`.
pub record Mido (Msg : Type 0) : Type 0 where
  pub note_on : ℕ → ℕ → ℕ → Msg
  pub note_off : ℕ → ℕ → ℕ → Msg
  pub control_change : ℕ → ℕ → ℕ → Msg
  pub from_bytes : List ℕ → Option Msg

-- What the code does to the outside: a `send` of a port that returns or raises, and the warnings on
-- a bus that is not open, when a message is queued or when it is sent.
pub data Effect (Msg : Type 0) : Type 0 where
  sent failed not_open discarded : ℕ → Msg → Effect Msg

-- A port is known by its name.
pub record MidiRouter (Msg : Type 0) : Type 0 where
  pub send_noteoff_on_vel0 : Bool
  pub ports : Dict ℕ String
  pub resolved_outputs : Dict ℕ String
  pub queue : List (ℕ × Msg)
  pub effects : List (Effect Msg)

-- The `ValueError`s, and the exception of `from_bytes`.
pub data RouterError : Type 0 where
  bad_channel bad_note bad_velocity empty_data bad_byte bad_message : RouterError

unfoldable pub validate_note_msg : ℤ → ℤ → ℤ → Result RouterError (ℕ × ℕ × ℕ)
validate_note_msg ch note vel = do
  raise_if (ltb_ℤ ch (pos 0) || ltb_ℤ (pos 15) ch) bad_channel
  raise_if (ltb_ℤ note (pos 0) || ltb_ℤ (pos 127) note) bad_note
  raise_if (ltb_ℤ vel (pos 0) || ltb_ℤ (pos 127) vel) bad_velocity
  ok (pos_part ch, pos_part note, pos_part vel)

-- `for value in payload`: the values as bytes
unfoldable pub validate_bytes : List ℤ → Result RouterError (List ℕ)
validate_bytes [] = ok []
validate_bytes (value ∷ payload) = do
  raise_if (ltb_ℤ value (pos 0) || ltb_ℤ (pos 255) value) bad_byte
  rest ← validate_bytes payload
  ok (pos_part value ∷ rest)

abbrev pub is_empty {ℓ} : {A : Type ℓ} → List A → Bool
is_empty [] = true
is_empty (x ∷ xs) = false

abbrev pub or_bad_message : {Msg : Type 0} → Option Msg → Result RouterError Msg
or_bad_message none = err bad_message
or_bad_message (some msg) = ok msg

abbrev pub insert_bus : ℕ → List ℕ → List ℕ
insert_bus k [] = k ∷ []
insert_bus k (j ∷ ks) = let rest = insert_bus k ks in if leb k j then k ∷ (j ∷ ks) else j ∷ rest

-- `sorted(self._ports.keys())`
unfoldable pub opened_buses : Dict ℕ String → List ℕ
opened_buses [] = []
opened_buses ((bus, name) ∷ ports) = insert_bus bus (opened_buses ports)

-- `range(start, start + n)`
abbrev pub range : ℕ → ℕ → List ℕ
range start zero = []
range start (suc n) = start ∷ range (start + 1) n

module _ {Msg : Type 0} where
  abbrev pub emit : Effect Msg → MidiRouter Msg → MidiRouter Msg
  emit e r = record r { effects = r.effects ++ (e ∷ []) }

  abbrev pub enqueue_at : Option String → ℕ → Msg → MidiRouter Msg → MidiRouter Msg
  enqueue_at none bus msg r = emit (discarded bus msg) r
  enqueue_at (some port) bus msg r = record r { queue = r.queue ++ ((bus, msg) ∷ []) }

  unfoldable pub enqueue : ℕ → Msg → MidiRouter Msg → MidiRouter Msg
  enqueue bus msg r = enqueue_at (lookup bus r.ports) bus msg r

  -- What `flush` takes out under the lock.
  unfoldable pub take_pending : MidiRouter Msg → List (ℕ × Msg) × MidiRouter Msg
  take_pending r = (r.queue, record r { queue = [] })

  abbrev pub deliver_at : Option String → Bool → ℕ → Msg → MidiRouter Msg → ℕ × MidiRouter Msg
  deliver_at none raises bus msg r = (0, emit (not_open bus msg) r)
  deliver_at (some port) true bus msg r = (0, emit (failed bus msg) r)
  deliver_at (some port) false bus msg r = (1, emit (sent bus msg) r)

  -- One round of the loop of `flush`, where `port.send` raises or not; 1 if the message was sent.
  unfoldable pub deliver : Bool → ℕ × Msg → MidiRouter Msg → ℕ × MidiRouter Msg
  deliver raises (bus, msg) r = deliver_at (lookup bus r.ports) raises bus msg r

  -- The loop, where `raises i` says whether the `i`-th send from here on raises.
  unfoldable pub deliver_all : (ℕ → Bool) → List (ℕ × Msg) → ℕ → MidiRouter Msg → ℕ × MidiRouter Msg
  unfolding deliver
  deliver_all raises [] count r = (count, r)
  deliver_all raises (m ∷ pending) count r =
      let (n, after) = deliver (raises 0) m r in
      deliver_all (λ i. raises (i + 1)) pending (count + n) after

  unfoldable pub flush : (ℕ → Bool) → MidiRouter Msg → ℕ × MidiRouter Msg
  unfolding take_pending deliver_all
  flush raises r =
      let (pending, taken) = take_pending r in
      if is_empty pending then (0, r) else deliver_all raises pending 0 taken

  -- The loop of `close`: every bus goes, also where `port.close` raises.
  abbrev pub close_ports : Dict ℕ String → MidiRouter Msg → MidiRouter Msg
  close_ports [] r = r
  close_ports ((bus, name) ∷ ports) r =
      close_ports ports
        (record r { ports = erase bus r.ports; resolved_outputs = erase bus r.resolved_outputs })

  unfoldable pub close : (ℕ → Bool) → MidiRouter Msg → MidiRouter Msg
  unfolding flush
  close raises r = let flushed = (flush raises r).1 in close_ports flushed.ports flushed

  module _ (mido : Mido Msg) where
    unfoldable pub send_note_off :
        ℕ → ℤ → ℤ → ℤ → MidiRouter Msg → Result RouterError (MidiRouter Msg)
    unfolding validate_note_msg enqueue
    send_note_off bus ch note vel r = do
      (c, n, v) ← validate_note_msg ch note vel
      ok (enqueue bus (mido.note_off c n v) r)

    unfoldable pub send_note_on :
        ℕ → ℤ → ℤ → ℤ → MidiRouter Msg → Result RouterError (MidiRouter Msg)
    unfolding validate_note_msg enqueue send_note_off
    send_note_on bus ch note vel r = do
      (c, n, v) ← validate_note_msg ch note vel
      if v == 0 && r.send_noteoff_on_vel0
          then send_note_off bus ch note (pos 0) r
          else ok (enqueue bus (mido.note_on c n v) r)

    unfoldable pub send_raw_midi : ℕ → List ℤ → MidiRouter Msg → Result RouterError (MidiRouter Msg)
    unfolding validate_bytes enqueue
    send_raw_midi bus payload r = do
      raise_if (is_empty payload) empty_data
      values ← validate_bytes payload
      msg ← or_bad_message (mido.from_bytes values)
      ok (enqueue bus msg r)

    -- The loops of `panic_all_notes_off`, over the channels and over the buses.
    unfoldable pub panic_channels : ℕ → List ℕ → MidiRouter Msg → MidiRouter Msg
    unfolding enqueue
    panic_channels bus [] r = r
    panic_channels bus (ch ∷ chs) r =
        panic_channels bus chs (enqueue bus (mido.control_change ch 123 0) r)

    unfoldable pub panic_buses : List ℕ → MidiRouter Msg → MidiRouter Msg
    unfolding panic_channels
    panic_buses [] r = r
    panic_buses (bus ∷ buses) r = panic_buses buses (panic_channels bus (range 0 16) r)

    unfoldable pub panic_all_notes_off : MidiRouter Msg → MidiRouter Msg
    unfolding panic_buses opened_buses
    panic_all_notes_off r = panic_buses (opened_buses r.ports) r
