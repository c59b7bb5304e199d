-- ===== src/Midi/Parser/Invariant.antt =====
-- Every byte is read without a fault, and every message that comes out is whole
-- (core/midi/byte_stream_parser.py).
use control_ok_a_v.Base.{
  ℕ, ◌≤◌, ◌≡◌, refl, inl, inr, false, List, [], ◌∷◌, ◌++◌, none, some, leb, leb→le, ltb, ◌==◌,
  length, All, All-append, arith, Bool-cases,
}
use control_ok_a_v.Midi.Parser.Model.{
  ParsedMidiMessage, MidiParseIssue, Run, is_realtime, message_type_for_status, sysex,
  sysex_interrupted,
}
use control_ok_a_v.Midi.Parser.Consume.{
  report, set_sysex, with_parser, store_sysex_byte, sysex_byte, consume_data_byte,
  consume_plain_byte, consume_byte,
}
use control_ok_a_v.Midi.Parser.WellFormed.{IsDataByte, IsMessage, IsGood, Returns}
use control_ok_a_v.Midi.Parser.DataBytes.{
  emit_messages, realtime_byte-IsGood, IsPlain, data_byte-Returns,
}
use control_ok_a_v.Midi.Parser.StatusBytes.{consume_status_byte-Returns}

module _ (limit : ℕ) where
  consume_plain_byte-Returns :
      (v : ℕ) (r : Run) → IsPlain limit r → Returns (IsGood limit) (consume_plain_byte v r)
  unfolding consume_plain_byte consume_data_byte
  consume_plain_byte-Returns v r h = elim (Bool-cases (is_realtime v)) [
    | inl e ↦ rw e (realtime_byte-IsGood limit v r e h.good)
    | inr e ↦ rw e (elim (Bool-cases (leb 0x80 v)) [
      | inl e' ↦ rw e' (consume_status_byte-Returns limit v r h (leb→le _ _ e') e)
      | inr e' ↦ rw e' (
          data_byte-Returns limit v r.parser.active_status r refl h (ground arith)
            h.good.parser.active)
    ])
  ]

  -- Inside a sysex no other message is under way.
  IsOpen : Run → Type 0
  IsOpen r =
      (r.parser.active_status ≡ none)
      × (r.parser.running_status ≡ none)
      × All IsDataByte r.parser.sysex_data
      × (length r.parser.sysex_data ≤ r.parser.max_sysex_bytes)

  closed_sysex :
      (r : Run) (ms : List ParsedMidiMessage) (is : List MidiParseIssue)
      → IsGood limit r
      → All (IsMessage limit) ms
      → IsPlain limit (record { parser = set_sysex false [] r.parser; messages = ms; issues = is })
  closed_sysex r ms is h k = record {
    good = record {
      parser = record { active = h.parser.active; running = h.parser.running; exclusive = refl };
      capacity = h.capacity;
      messages = k;
    };
    closed = (refl, refl);
  }

  store_sysex_byte-IsGood :
      (v : ℕ) (r : Run)
      → IsGood limit r
      → IsOpen r
      → IsDataByte v
      → IsGood limit (store_sysex_byte v r)
  unfolding store_sysex_byte IsOpen
  store_sysex_byte-IsGood v r h (active, running, bytes, room) d =
      elim (Bool-cases (ltb r.parser.max_sysex_bytes (length (r.parser.sysex_data ++ (v ∷ []))))) [
        | inl e ↦ rw e (closed_sysex r _ _ h h.messages).good
        | inr e ↦ rw e (record {
          parser = record {
            active = h.parser.active;
            running = h.parser.running;
            exclusive = (
              active,
              running,
              All-append IsDataByte r.parser.sysex_data (v ∷ []) bytes (d, tt),
              ground arith,
            );
          };
          capacity = h.capacity;
          messages = h.messages;
        })
      ]

  sysex-IsMessage :
      (r : Run)
      → IsGood limit r
      → IsOpen r
      → IsMessage limit (record {
        status = 0xF0;
        content = r.parser.sysex_data;
        message_type = sysex;
        channel = none;
        is_running_status = false;
      })
  unfolding IsOpen message_type_for_status
  sysex-IsMessage r h (_, _, bytes, room) = record {
    bytes = bytes;
    name = refl;
    voice = refl;
    size = inl (refl, omega (arith, h.capacity));
  }

  sysex_byte-Returns :
      (v : ℕ) (r : Run) → IsGood limit r → IsOpen r → Returns (IsGood limit) (sysex_byte v r)
  unfolding sysex_byte
  sysex_byte-Returns v r h o = elim (Bool-cases (v == 0xF7)) [
    | inl e ↦
        rw e
          (closed_sysex r _ _ h
            (emit_messages limit r.messages _ h.messages (sysex-IsMessage r h o))).good
    | inr e ↦ rw e (elim (Bool-cases (leb 0x80 v)) [
      | inl e' ↦ rw e' (
          consume_plain_byte-Returns v
            (with_parser (set_sysex false []) (report sysex_interrupted (some v) r))
            (closed_sysex r r.messages _ h h.messages))
      | inr e' ↦ rw e' (store_sysex_byte-IsGood v r h o (ground arith))
    ])
  ]

  -- Every byte is consumed without a `KeyError`. It keeps the parser well formed, and every message
  -- that it emits is whole.
  pub consume_byte-IsGood :
      (v : ℕ) (r : Run) → IsGood limit r → Returns (IsGood limit) (consume_byte v r)
  unfolding consume_byte IsOpen
  consume_byte-IsGood v r h = elim (Bool-cases (is_realtime v)) [
    | inl e ↦ rw e (realtime_byte-IsGood limit v r e h)
    | inr e ↦ rw e (elim (Bool-cases r.parser.in_sysex) [
      | inl e' ↦ simp e' (sysex_byte-Returns v r h (rw e' at h.parser.exclusive))
      | inr e' ↦ simp e' (
          consume_plain_byte-Returns v r
            (record { good = h; closed = (e', rw e' at h.parser.exclusive) }))
    ])
  ]
