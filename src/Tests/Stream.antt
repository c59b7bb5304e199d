-- ===== src/Tests/Stream.antt =====
-- The MIDI reader on concrete bytes.
use control_ok_a_v.Base.{◌≡◌, true, [], ◌∷◌, ◌++◌, ◌>>=◌}
use control_ok_a_v.Base.Int.{pos}
use control_ok_a_v.Base.Bytes.{Bytes}
use control_ok_a_v.Midi.Parser.{Parser, init, byte_string, feed}
use control_ok_a_v.Midi.Parser.Frame.{after_result}
use control_ok_a_v.Midi.Parser.Chunks.{init-IsWellFormed, IsRead, feed-IsGood, feed-append}

abbrev parser : Parser
parser = init true (pos 4)

-- A note under running status, with a clock byte in the middle, and a sysex that is cut short.
abbrev stream : Bytes
stream = 0x90 ∷ 60 ∷ 100 ∷ 62 ∷ 0xF8 ∷ 0 ∷ 0xF0 ∷ 1 ∷ 0x80 ∷ []

feed-IsGood_example :
    IsRead (byte_string stream) parser.max_sysex_bytes (feed (byte_string stream) parser)
feed-IsGood_example = feed-IsGood (byte_string stream) parser (init-IsWellFormed true (pos 4))

feed-append_example : feed (byte_string (stream ++ (60 ∷ []))) parser ≡ (
    feed (byte_string stream) parser >>= λ r.
    after_result r.messages r.issues (feed (byte_string (60 ∷ [])) r.parser))
feed-append_example = feed-append stream (60 ∷ []) parser
