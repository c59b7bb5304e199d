-- ===== src/Midi/Parser/DataBytes.antt =====
-- A data byte keeps the MIDI reader well formed (core/midi/byte_stream_parser.py).
use control_ok_a_v.Base.{
  ℕ, ◌≤◌, ◌<◌, ◌/◌, ◌≡◌, refl, ap, ◌∙◌, inl, inr, true, false, List, [], ◌∷◌, ◌++◌, Option, none,
  some, ltb, ltb→lt, length, length-append, take, length-take, All, All-append, All-take, arith,
  Bool-cases,
}
use mathlib.Core.Path.{subst⁻¹}
use control_ok_a_v.Midi.Parser.Model.{
  MessageType, ParsedMidiMessage, MidiParseIssue, Parser, Run, is_realtime,
  channel_status_data_bytes, realtime_name, name_or, message_type_for_status, system_realtime,
}
use control_ok_a_v.Midi.Parser.Consume.{
  set_active, with_parser, channel_of, finalize, resume, without_active, data_byte, realtime_byte,
  finalize_if_complete,
}
use control_ok_a_v.Midi.Parser.WellFormed.{
  IsDataByte, data_length, IsMessage, ActiveFits, RunningFits, SysexFits, IsGood, Returns,
  data_length_channel,
}

module _ (limit : ℕ) where
  pub emit_messages :
      (ms : List ParsedMidiMessage) (m : ParsedMidiMessage)
      → All (IsMessage limit) ms
      → IsMessage limit m
      → All (IsMessage limit) (ms ++ (m ∷ []))
  emit_messages ms m h k = All-append (IsMessage limit) ms (m ∷ []) h (k, tt)

  pub realtime-IsMessage :
      (v : ℕ) (t : MessageType)
      → is_realtime v ≡ true
      → IsMessage limit (record {
        status = v;
        content = [];
        message_type = name_or (realtime_name v) t;
        channel = none;
        is_running_status = false;
      })
  unfolding message_type_for_status data_length
  realtime-IsMessage v t h = record {
    bytes = tt;
    name = ground arith;
    voice = ground arith;
    size = inr (ground arith);
  }

  pub realtime_byte-IsGood :
      (v : ℕ) (r : Run) → is_realtime v ≡ true → IsGood limit r → IsGood limit (realtime_byte v r)
  unfolding realtime_byte
  realtime_byte-IsGood v r h g = record {
    parser = g.parser;
    capacity = g.capacity;
    messages = emit_messages r.messages _ g.messages (realtime-IsMessage v system_realtime h);
  }

  -- A parser outside a sysex whose status under way may have all its bytes.
  pub record IsPending (status : ℕ) (r : Run) : Type 0 where
    pub active : r.parser.active_status ≡ some status
    pub size : data_length status ≡ some r.parser.expected_data_len
    pub room : length r.parser.pending_data ≤ r.parser.expected_data_len
    pub bytes : All IsDataByte r.parser.pending_data
    pub running : RunningFits r.parser.enable_running_status r.parser.running_status
    pub closed : (r.parser.in_sysex ≡ false) × (r.parser.sysex_data ≡ [])
    pub capacity : r.parser.max_sysex_bytes ≡ limit
    pub messages : All (IsMessage limit) r.messages

  pub sysex_closed : (p : Parser) → p.in_sysex ≡ false → p.sysex_data ≡ [] → SysexFits p.in_sysex p
  sysex_closed p e h = rw e h

  pub pending_short :
      (status : ℕ) (r : Run)
      → IsPending status r
      → length r.parser.pending_data < r.parser.expected_data_len
      → IsGood limit r
  pending_short status r h lt = record {
    parser = record {
      active = rw h.active (h.size, lt, h.bytes);
      running = h.running;
      exclusive = sysex_closed r.parser h.closed.0 h.closed.1;
    };
    capacity = h.capacity;
    messages = h.messages;
  }

  pub pending_full :
      (status : ℕ) (r : Run)
      → IsPending status r
      → r.parser.expected_data_len ≤ length r.parser.pending_data
      → IsMessage limit (record {
        status = status;
        content = take r.parser.expected_data_len r.parser.pending_data;
        message_type = message_type_for_status status;
        channel = channel_of status;
        is_running_status = r.parser.active_from_running_status;
      })
  pending_full status r h le = record {
    bytes = All-take IsDataByte r.parser.expected_data_len r.parser.pending_data h.bytes;
    name = refl;
    voice = refl;
    size = inr (
        h.size
        ∙ ap some
            (omega (arith, length-take r.parser.expected_data_len r.parser.pending_data, h.room)));
  }

  pub finalize-IsGood :
      (status : ℕ) (r : Run) → IsPending status r → IsGood limit (finalize (some status) r)
  unfolding finalize
  finalize-IsGood status r h =
      elim (Bool-cases (ltb (length r.parser.pending_data) r.parser.expected_data_len)) [
        | inl e ↦ rw e (pending_short status r h (ltb→lt _ _ e))
        | inr e ↦ rw e (record {
          parser = record {
            active = (refl, refl);
            running = h.running;
            exclusive = sysex_closed (set_active none false 0 [] r.parser) h.closed.0 h.closed.1;
          };
          capacity = h.capacity;
          messages = emit_messages r.messages _ h.messages (pending_full status r h (ground arith));
        })
      ]

  -- What a good run gives outside a sysex.
  pub record IsPlain (r : Run) : Type 0 where
    pub good : IsGood limit r
    pub closed : (r.parser.in_sysex ≡ false) × (r.parser.sysex_data ≡ [])

  pub resume-Returns :
      (v s : ℕ) (r : Run)
      → IsPlain r
      → IsDataByte v
      → 0x80 ≤ s
      → s ≤ 0xEF
      → Returns (IsGood limit) (resume v s (channel_status_data_bytes (s / 16)) r)
  unfolding resume finalize_if_complete
  resume-Returns v s r h d lo hi =
      let (n, table, size, positive) = data_length_channel s lo hi in
      rw table (
        finalize-IsGood s (with_parser (set_active (some s) true n (v ∷ [])) r) (record {
          active = refl;
          size = size;
          room = omega arith;
          bytes = (d, tt);
          running = h.good.parser.running;
          closed = h.closed;
          capacity = h.good.capacity;
          messages = h.good.messages;
        }))

  pub reported :
      (r : Run) (issues : List MidiParseIssue)
      → IsGood limit r
      → IsGood limit (record r { issues = issues })
  reported r issues h = record { parser = h.parser; capacity = h.capacity; messages = h.messages }

  pub without_active-Returns :
      (v : ℕ) (o : Option ℕ) (r : Run)
      → IsPlain r
      → IsDataByte v
      → RunningFits r.parser.enable_running_status o
      → Returns (IsGood limit) (without_active v o r)
  unfolding without_active
  without_active-Returns v none r h d fits = reported r _ h.good
  without_active-Returns v (some s) r h d (enabled, lo, hi) =
      simp enabled (resume-Returns v s r h d lo hi)

  pub data_byte-Returns :
      (v : ℕ) (o : Option ℕ) (r : Run)
      → r.parser.active_status ≡ o
      → IsPlain r
      → IsDataByte v
      → ActiveFits o r.parser.expected_data_len r.parser.pending_data
      → Returns (IsGood limit) (data_byte v o r)
  unfolding data_byte finalize_if_complete
  data_byte-Returns v none r e h d fits =
      without_active-Returns v r.parser.running_status r h d h.good.parser.running
  data_byte-Returns v (some s) r e h d (size, short, bytes) =
      let grown = r.parser.pending_data ++ (v ∷ []) in
      let r' : Run = record r { parser = record r.parser { pending_data = grown } } in
      subst⁻¹ (IsGood limit) (ap (λ o. finalize o r') e) (
        finalize-IsGood s r' (record {
          active = e;
          size = size;
          room = omega (arith, length-append r.parser.pending_data (v ∷ []));
          bytes = All-append IsDataByte r.parser.pending_data (v ∷ []) bytes (d, tt);
          running = h.good.parser.running;
          closed = h.closed;
          capacity = h.good.capacity;
          messages = h.good.messages;
        }))
