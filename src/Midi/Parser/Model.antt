-- ===== src/Midi/Parser/Model.antt =====
-- The messages, the issues, the state and the tables of the MIDI reader.
use Prim.Native.Nat.{max}
use control_ok_a_v.Base.{
  ℕ, ◌/◌, Bool, true, false, ◌&&◌, ◌||◌, List, [], ◌∷◌, Option, none, some, leb, ◌==◌,
  if◌then◌else◌, length,
}
use control_ok_a_v.Base.Int.{ℤ, pos_part}

-- `message_type`; the last three are the names for a status that no table has.
pub data MessageType : Type 0 where
  note_off note_on poly_aftertouch control_change program_change channel_aftertouch : MessageType
  pitch_bend time_code_quarter_frame song_position_pointer song_select tune_request : MessageType
  timing_clock start continue stop active_sensing system_reset sysex : MessageType
  system_realtime channel_message system_common : MessageType

pub record ParsedMidiMessage : Type 0 where
  pub status : ℕ
  pub content : List ℕ
  pub message_type : MessageType
  pub channel : Option ℕ
  pub is_running_status : Bool

-- The texts of the issues say the same as their codes, and are left out.
pub data IssueCode : Type 0 where
  invalid_byte_type byte_out_of_range sysex_interrupted sysex_too_long : IssueCode
  unexpected_sysex_end unsupported_status data_without_status : IssueCode

pub record MidiParseIssue : Type 0 where
  pub code : IssueCode
  pub byte_value : Option ℤ

-- `MidiByteStreamParser`
pub record Parser : Type 0 where
  pub enable_running_status : Bool
  pub max_sysex_bytes : ℕ
  pub running_status : Option ℕ
  pub active_status : Option ℕ
  pub active_from_running_status : Bool
  pub expected_data_len : ℕ
  pub pending_data : List ℕ
  pub in_sysex : Bool
  pub sysex_data : List ℕ

pub record MidiParserState : Type 0 where
  pub running_status : Option ℕ
  pub pending_data_bytes : ℕ
  pub in_sysex : Bool
  pub sysex_length : ℕ

-- A call in progress: the parser, and the two lists that the call appends to.
pub record Run : Type 0 where
  pub parser : Parser
  pub messages : List ParsedMidiMessage
  pub issues : List MidiParseIssue

-- A lookup in a table that has no such key, and the `OverflowError` of `int` on an infinite float.
pub data ParserError : Type 0 where
  no_such_status overflow_error : ParserError

unfoldable pub reset : Parser → Parser
reset p = record p {
  running_status = none;
  active_status = none;
  active_from_running_status = false;
  expected_data_len = 0;
  pending_data = [];
  in_sysex = false;
  sysex_data = [];
}

unfoldable pub init : Bool → ℤ → Parser
init enable_running_status max_sysex_bytes = record {
  enable_running_status = enable_running_status;
  max_sysex_bytes = max 1 (pos_part max_sysex_bytes);
  running_status = none;
  active_status = none;
  active_from_running_status = false;
  expected_data_len = 0;
  pending_data = [];
  in_sysex = false;
  sysex_data = [];
}

unfoldable pub snapshot : Parser → MidiParserState
snapshot p = record {
  running_status = p.running_status;
  pending_data_bytes = length p.pending_data;
  in_sysex = p.in_sysex;
  sysex_length = length p.sysex_data;
}

abbrev pub is_channel_status : ℕ → Bool
is_channel_status status = leb 0x80 status && leb status 0xEF

-- `_CHANNEL_STATUS_DATA_BYTES`, by `status >> 4`
abbrev pub channel_status_data_bytes : ℕ → Option ℕ
channel_status_data_bytes kind =
    if kind == 0xC || kind == 0xD
    then some 1
    else if leb 0x8 kind && leb kind 0xE
    then some 2
    else none

-- `_SYSTEM_COMMON_DATA_BYTES`
abbrev pub system_common_data_bytes : ℕ → Option ℕ
system_common_data_bytes status =
    if status == 0xF1 || status == 0xF3
    then some 1
    else if status == 0xF2
    then some 2
    else if status == 0xF6
    then some 0
    else none

-- `value in _REALTIME_STATUS`
abbrev pub is_realtime : ℕ → Bool
is_realtime value =
    value == 0xF8
    || (value == 0xFA || (value == 0xFB || (value == 0xFC || (value == 0xFE || value == 0xFF))))

-- `_CHANNEL_STATUS_NAMES.get(status >> 4, "channel_message")`
unfoldable pub channel_status_name : ℕ → MessageType
channel_status_name kind =
    if kind == 0x8
    then note_off
    else if kind == 0x9
    then note_on
    else if kind == 0xA
    then poly_aftertouch
    else if kind == 0xB
    then control_change
    else if kind == 0xC
    then program_change
    else if kind == 0xD
    then channel_aftertouch
    else if kind == 0xE
    then pitch_bend
    else channel_message

-- `_SYSTEM_COMMON_NAMES`
unfoldable pub system_common_name : ℕ → Option MessageType
system_common_name status =
    if status == 0xF1
    then some time_code_quarter_frame
    else if status == 0xF2
    then some song_position_pointer
    else if status == 0xF3
    then some song_select
    else if status == 0xF6
    then some tune_request
    else none

-- `_REALTIME_NAMES`
unfoldable pub realtime_name : ℕ → Option MessageType
realtime_name status =
    if status == 0xF8
    then some timing_clock
    else if status == 0xFA
    then some start
    else if status == 0xFB
    then some continue
    else if status == 0xFC
    then some stop
    else if status == 0xFE
    then some active_sensing
    else if status == 0xFF
    then some system_reset
    else none

abbrev pub name_or : Option MessageType → MessageType → MessageType
name_or none t = t
name_or (some s) t = s

unfoldable pub message_type_for_status : ℕ → MessageType
unfolding channel_status_name system_common_name realtime_name
message_type_for_status status =
    if is_channel_status status
    then channel_status_name (status / 16)
    else name_or (system_common_name status)
        (name_or (realtime_name status) (if status == 0xF0 then sysex else system_common))

abbrev is_note_on : MessageType → Bool
is_note_on note_on = true
is_note_on _ = false

abbrev second_is_zero : List ℕ → Bool
second_is_zero (a ∷ (b ∷ r)) = b == 0
second_is_zero _ = false

-- The properties `normalized_type` and `raw_bytes` of a message.
unfoldable pub normalized_type : ParsedMidiMessage → MessageType
normalized_type m =
    if is_note_on m.message_type && second_is_zero m.content then note_off else m.message_type

unfoldable pub raw_bytes : ParsedMidiMessage → List ℕ
raw_bytes m = m.status ∷ m.content
