-- ===== src/Midi/Parser/WellFormed.antt =====
-- What holds of the MIDI reader between two bytes, and of a message that it emits
-- (core/midi/byte_stream_parser.py).
use control_ok_a_v.Base.{
  ℕ, ◌≤◌, ◌<◌, ◌/◌, ◌≡◌, ◌⊎◌, inl, inr, Bool, true, false, List, [], Option, none, some, ◌==◌, ◌||◌,
  if◌then◌else◌, length, All, Result, ok, err, arith, Bool-cases,
}
use control_ok_a_v.Midi.Parser.Model.{
  ParsedMidiMessage, Parser, Run, ParserError, is_channel_status, is_realtime,
  channel_status_data_bytes, system_common_data_bytes, message_type_for_status,
}
use control_ok_a_v.Midi.Parser.Consume.{channel_of}

abbrev pub IsDataByte : ℕ → Type 0
IsDataByte b = b < 0x80

-- How many data bytes follow a status that is not a sysex, by the MIDI tables.
unfoldable pub data_length : ℕ → Option ℕ
data_length status =
    if is_realtime status
    then some 0
    else if is_channel_status status
    then channel_status_data_bytes (status / 16)
    else system_common_data_bytes status

-- A whole message: data bytes only, as many as the status wants, under the name and the channel of
-- the status. A sysex has at most `limit` bytes.
pub record IsMessage (limit : ℕ) (m : ParsedMidiMessage) : Type 0 where
  pub bytes : All IsDataByte m.content
  pub name : m.message_type ≡ message_type_for_status m.status
  pub voice : m.channel ≡ channel_of m.status
  pub size :
      ((m.status ≡ 0xF0) × (length m.content ≤ limit))
      ⊎ (data_length m.status ≡ some (length m.content))

-- The status under way, if any, wants more bytes than are there.
abbrev pub ActiveFits : Option ℕ → ℕ → List ℕ → Type 0
ActiveFits none expected pending = (expected ≡ 0) × (pending ≡ [])
ActiveFits (some status) expected pending =
    (data_length status ≡ some expected) × (length pending < expected) × All IsDataByte pending

abbrev pub RunningFits : Bool → Option ℕ → Type 0
RunningFits enabled none = Unit
RunningFits enabled (some status) = (enabled ≡ true) × (0x80 ≤ status) × (status ≤ 0xEF)

abbrev pub SysexFits : Bool → Parser → Type 0
SysexFits false p = p.sysex_data ≡ []
SysexFits true p =
    (p.active_status ≡ none)
    × (p.running_status ≡ none)
    × All IsDataByte p.sysex_data
    × (length p.sysex_data ≤ p.max_sysex_bytes)

pub record IsWellFormed (p : Parser) : Type 0 where
  pub active : ActiveFits p.active_status p.expected_data_len p.pending_data
  pub running : RunningFits p.enable_running_status p.running_status
  pub exclusive : SysexFits p.in_sysex p

-- A run with a well-formed parser that has emitted whole messages.
pub record IsGood (limit : ℕ) (r : Run) : Type 0 where
  pub parser : IsWellFormed r.parser
  pub capacity : r.parser.max_sysex_bytes ≡ limit
  pub messages : All (IsMessage limit) r.messages

-- The call returned, and what it returned has the property.
abbrev pub Returns : (Run → Type 0) → Result ParserError Run → Type 0
Returns P (ok r) = P r
Returns P (err e) = ⊥

pub data_length_channel :
    (status : ℕ)
    → 0x80 ≤ status
    → status ≤ 0xEF
    → (n : ℕ) × (channel_status_data_bytes (status / 16) ≡ some n)
      × (data_length status ≡ some n)
      × (0 < n)
unfolding data_length
data_length_channel status lo hi = elim (Bool-cases (status / 16 == 0xC || status / 16 == 0xD)) [
  | inl e ↦ (1, ground arith, ground arith, omega arith)
  | inr e ↦ (2, ground arith, ground arith, omega arith)
]
