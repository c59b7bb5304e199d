-- ===== src/Midi/Parser/Consume.antt =====
-- `_consume_byte` and what it calls.
use control_ok_a_v.Base.{
  ℕ, ◌/◌, ◌%◌, Bool, true, false, List, [], ◌∷◌, ◌++◌, Option, none, some, leb, ltb, ◌==◌,
  if◌then◌else◌, length, take, Result, ok, err,
}
use control_ok_a_v.Base.Int.{pos}
use control_ok_a_v.Midi.Parser.Model.{
  ParsedMidiMessage, IssueCode, sysex_interrupted, sysex_too_long, unexpected_sysex_end,
  unsupported_status, data_without_status, Parser, Run, ParserError, no_such_status, sysex,
  system_common, system_realtime, is_channel_status, channel_status_data_bytes,
  system_common_data_bytes, is_realtime, system_common_name, realtime_name, name_or,
  message_type_for_status,
}

abbrev pub emit : ParsedMidiMessage → Run → Run
emit m r = record r { messages = r.messages ++ (m ∷ []) }

abbrev pub report : IssueCode → Option ℕ → Run → Run
report code none r = record r {
  issues = r.issues ++ (record { code = code; byte_value = none } ∷ []);
}
report code (some v) r = record r {
  issues = r.issues ++ (record { code = code; byte_value = some (pos v) } ∷ []);
}

-- The five fields of the message under way.
abbrev pub set_active : Option ℕ → Bool → ℕ → List ℕ → Parser → Parser
set_active status from_running expected pending p = record p {
  active_status = status;
  active_from_running_status = from_running;
  expected_data_len = expected;
  pending_data = pending;
}

abbrev pub set_running : Option ℕ → Parser → Parser
set_running status p = record p { running_status = status }

abbrev pub set_sysex : Bool → List ℕ → Parser → Parser
set_sysex active bytes p = record p { in_sysex = active; sysex_data = bytes }

abbrev pub with_parser : (Parser → Parser) → Run → Run
with_parser f r = record r { parser = f r.parser }

abbrev pub channel_of : ℕ → Option ℕ
channel_of status = if is_channel_status status then some (status % 16) else none

unfoldable pub finalize : Option ℕ → Run → Run
finalize none r = r
finalize (some status) r =
    if ltb (length r.parser.pending_data) r.parser.expected_data_len
    then r
    else with_parser (set_active none false 0 []) (
        emit
          (record {
            status = status;
            content = take r.parser.expected_data_len r.parser.pending_data;
            message_type = message_type_for_status status;
            channel = channel_of status;
            is_running_status = r.parser.active_from_running_status;
          })
          r)

unfoldable pub finalize_if_complete : Run → Run
finalize_if_complete r = finalize r.parser.active_status r

-- A data byte under running status: the table is read by `running_status >> 4`.
unfoldable pub resume : ℕ → ℕ → Option ℕ → Run → Result ParserError Run
resume value status none r = err no_such_status
resume value status (some expected) r =
    ok (finalize_if_complete (with_parser (set_active (some status) true expected (value ∷ [])) r))

unfoldable pub without_active : ℕ → Option ℕ → Run → Result ParserError Run
without_active value none r = ok (report data_without_status (some value) r)
without_active value (some status) r =
    if r.parser.enable_running_status
    then resume value status (channel_status_data_bytes (status / 16)) r
    else ok (report data_without_status (some value) r)

unfoldable pub data_byte : ℕ → Option ℕ → Run → Result ParserError Run
data_byte value none r = without_active value r.parser.running_status r
data_byte value (some status) r = ok (
    finalize_if_complete (record r {
      parser = record r.parser { pending_data = r.parser.pending_data ++ (value ∷ []) };
    }))

unfoldable pub consume_data_byte : ℕ → Run → Result ParserError Run
consume_data_byte value r = data_byte value r.parser.active_status r

-- A system common status, by the number of its data bytes; `none` is a status that is not supported.
unfoldable pub system_common_byte : ℕ → Option ℕ → Run → Run
system_common_byte status none r =
    with_parser (λ p. set_running none (set_active none false 0 [] p))
      (report unsupported_status (some status) r)
system_common_byte status (some n) r =
    if n == 0
    then with_parser (λ p. set_running none (set_active none false 0 [] p))
        (emit
          (record {
            status = status;
            content = [];
            message_type = name_or (system_common_name status) system_common;
            channel = none;
            is_running_status = false;
          })
          r)
    else with_parser (λ p. set_running none (set_active (some status) false n [] p)) r

unfoldable pub channel_byte : ℕ → Option ℕ → Run → Result ParserError Run
channel_byte status none r = err no_such_status
channel_byte status (some n) r = ok (
    with_parser
      (λ p.
        set_running (if p.enable_running_status then some status else none)
          (set_active (some status) false n [] p))
      r)

unfoldable pub consume_status_byte : ℕ → Run → Result ParserError Run
consume_status_byte status r =
    if is_channel_status status
    then channel_byte status (channel_status_data_bytes (status / 16)) r
    else if status == 0xF0
    then ok
        (with_parser (λ p. set_running none (set_active none false 0 [] (set_sysex true [] p))) r)
    else if status == 0xF7
    then ok (
        with_parser (λ p. set_running none (set_active none false 0 [] p))
          (report unexpected_sysex_end (some status) r))
    else ok (system_common_byte status (system_common_data_bytes status) r)

unfoldable pub realtime_byte : ℕ → Run → Run
realtime_byte value r =
    emit
      (record {
        status = value;
        content = [];
        message_type = name_or (realtime_name value) system_realtime;
        channel = none;
        is_running_status = false;
      })
      r

-- `_consume_byte` where no sysex is open.
unfoldable pub consume_plain_byte : ℕ → Run → Result ParserError Run
consume_plain_byte value r =
    if is_realtime value
    then ok (realtime_byte value r)
    else if leb 0x80 value
    then consume_status_byte value r
    else consume_data_byte value r

-- A data byte of an open sysex, and the limit on its length.
unfoldable pub store_sysex_byte : ℕ → Run → Run
store_sysex_byte value r =
    let grown = r.parser.sysex_data ++ (value ∷ []) in
    if ltb r.parser.max_sysex_bytes (length grown)
    then with_parser (set_sysex false []) (report sysex_too_long none r)
    else with_parser (set_sysex true grown) r

unfoldable pub sysex_byte : ℕ → Run → Result ParserError Run
sysex_byte value r =
    if value == 0xF7
    then ok (
        with_parser (set_sysex false []) (
          emit
            (record {
              status = 0xF0;
              content = r.parser.sysex_data;
              message_type = sysex;
              channel = none;
              is_running_status = false;
            })
            r))
    else if leb 0x80 value
    then consume_plain_byte value
        (with_parser (set_sysex false []) (report sysex_interrupted (some value) r))
    else ok (store_sysex_byte value r)

-- The byte that interrupts a sysex is read again with the sysex closed, so at most once more.
unfoldable pub consume_byte : ℕ → Run → Result ParserError Run
consume_byte value r =
    if is_realtime value
    then ok (realtime_byte value r)
    else if r.parser.in_sysex
    then sysex_byte value r
    else consume_plain_byte value r
