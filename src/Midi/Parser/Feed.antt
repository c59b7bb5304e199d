-- ===== src/Midi/Parser/Feed.antt =====
-- `feed`: a chunk of bytes, or of values that should be bytes.
use control_ok_a_v.Base.{◌||◌, List, [], ◌∷◌, none, some, if◌then◌else◌, Result, ok, err, ◌>>=◌}
use control_ok_a_v.Base.Int.{ℤ, pos, pos_part, ltb_ℤ}
use control_ok_a_v.Base.Bytes.{Bytes}
use control_ok_a_v.Midi.Parser.Model.{
  MidiParseIssue, invalid_byte_type, byte_out_of_range, Parser, Run, ParserError, overflow_error,
}
use control_ok_a_v.Midi.Parser.Consume.{
  finalize, finalize_if_complete, resume, without_active, data_byte, consume_data_byte,
  system_common_byte, channel_byte, consume_status_byte, realtime_byte, consume_plain_byte,
  store_sysex_byte, sysex_byte, consume_byte,
}

-- What `int(raw_value)` gives: a number, a `TypeError` or `ValueError`, or the `OverflowError` of an
-- infinite float, which the code does not catch.
pub data RawValue : Type 0 where
  number : ℤ → RawValue
  not_a_number infinite : RawValue

-- A chunk: bytes, or any sequence.
pub data Chunk : Type 0 where
  byte_string : Bytes → Chunk
  sequence : List RawValue → Chunk

-- The bytes, and the issues, in the order of the values.
unfoldable pub coerce_values : List RawValue → Result ParserError (Bytes × List MidiParseIssue)
coerce_values [] = ok ([], [])
coerce_values (infinite ∷ rest) = err overflow_error
coerce_values (not_a_number ∷ rest) = do
  (bytes, issues) ← coerce_values rest
  ok (bytes, record { code = invalid_byte_type; byte_value = none } ∷ issues)
coerce_values (number v ∷ rest) = do
  (bytes, issues) ← coerce_values rest
  ok (
      if ltb_ℤ v (pos 0) || ltb_ℤ (pos 255) v
      then (bytes, record { code = byte_out_of_range; byte_value = some v } ∷ issues)
      else (pos_part v ∷ bytes, issues))

unfoldable pub coerce_bytes : Chunk → Result ParserError (Bytes × List MidiParseIssue)
unfolding coerce_values
coerce_bytes (byte_string bytes) = ok (bytes, [])
coerce_bytes (sequence values) = coerce_values values

-- `for value in values: self._consume_byte(value, messages, issues)`
unfoldable pub consume_all : Bytes → Run → Result ParserError Run
consume_all [] r = ok r
consume_all (value ∷ rest) r = do r' ← consume_byte value r; consume_all rest r'

-- The batch that is returned is the messages and the issues of the run.
unfoldable pub feed : Chunk → Parser → Result ParserError Run
unfolding coerce_bytes consume_all consume_byte sysex_byte store_sysex_byte consume_plain_byte
    realtime_byte consume_status_byte channel_byte system_common_byte consume_data_byte data_byte
    without_active resume finalize_if_complete finalize
feed chunk p = do
  (values, issues) ← coerce_bytes chunk
  consume_all values (record { parser = p; messages = []; issues = issues })
