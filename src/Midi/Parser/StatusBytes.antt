-- ===== src/Midi/Parser/StatusBytes.antt =====
-- A status byte keeps the MIDI reader well formed (core/midi/byte_stream_parser.py).
use control_ok_a_v.Base.{
  ℕ, suc, ◌≤◌, ◌<◌, ◌/◌, ◌≡◌, refl, ◌∙◌, zero, inl, inr, true, false, [], Option, none, some, ◌==◌,
  if◌then◌else◌, All, arith, Bool-cases,
}
use Prim.Native.Nat.{zero-le}
use control_ok_a_v.Midi.Parser.Model.{
  ParsedMidiMessage, Run, is_channel_status, is_realtime, channel_status_data_bytes,
  system_common_data_bytes, system_common_name, name_or, message_type_for_status, system_common,
  unsupported_status, unexpected_sysex_end,
}
use control_ok_a_v.Midi.Parser.Consume.{
  emit, report, set_active, set_running, set_sysex, with_parser, system_common_byte, channel_byte,
  consume_status_byte,
}
use control_ok_a_v.Midi.Parser.WellFormed.{
  data_length, IsMessage, RunningFits, IsGood, Returns, data_length_channel,
}
use control_ok_a_v.Midi.Parser.DataBytes.{emit_messages, sysex_closed, IsPlain}

module _ (limit : ℕ) where
  -- No message is under way any more.
  pub idle :
      (r : Run)
      → (r.parser.in_sysex ≡ false) × (r.parser.sysex_data ≡ [])
      → r.parser.max_sysex_bytes ≡ limit
      → All (IsMessage limit) r.messages
      → IsGood limit (with_parser (λ p. set_running none (set_active none false 0 [] p)) r)
  idle r closed capacity messages = record {
    parser = record {
      active = (refl, refl);
      running = tt;
      exclusive =
          sysex_closed limit (set_running none (set_active none false 0 [] r.parser)) closed.0
            closed.1;
    };
    capacity = capacity;
    messages = messages;
  }

  pub common-IsMessage :
      (s : ℕ)
      → is_realtime s ≡ false
      → is_channel_status s ≡ false
      → system_common_data_bytes s ≡ some 0
      → IsMessage limit (record {
        status = s;
        content = [];
        message_type = name_or (system_common_name s) system_common;
        channel = none;
        is_running_status = false;
      })
  unfolding message_type_for_status data_length
  common-IsMessage s h k e = record {
    bytes = tt;
    name = ground arith;
    voice = ground arith;
    size = inr (ground arith);
  }

  pub under_way :
      (s n : ℕ) (run : Option ℕ) (r : Run)
      → IsPlain limit r
      → data_length s ≡ some n
      → 0 < n
      → RunningFits r.parser.enable_running_status run
      → IsGood limit (with_parser (λ p. set_running run (set_active (some s) false n [] p)) r)
  under_way s n run r h size positive fits = record {
    parser = record {
      active = (size, positive, tt);
      running = fits;
      exclusive =
          sysex_closed limit (set_running run (set_active (some s) false n [] r.parser)) h.closed.0
            h.closed.1;
    };
    capacity = h.good.capacity;
    messages = h.good.messages;
  }

  pub data_length_common :
      (s : ℕ)
      → is_realtime s ≡ false
      → is_channel_status s ≡ false
      → data_length s ≡ system_common_data_bytes s
  unfolding data_length
  data_length_common s h k = rw (h, k)

  pub system_common_byte-IsGood :
      (s : ℕ) (o : Option ℕ) (r : Run)
      → IsPlain limit r
      → is_realtime s ≡ false
      → is_channel_status s ≡ false
      → system_common_data_bytes s ≡ o
      → IsGood limit (system_common_byte s o r)
  unfolding system_common_byte
  system_common_byte-IsGood s none r h f k e =
      idle (report unsupported_status (some s) r) h.closed h.good.capacity h.good.messages
  system_common_byte-IsGood s (some zero) r h f k e =
      let whole = common-IsMessage s f k e in
      let m : ParsedMidiMessage = record {
        status = s;
        content = [];
        message_type = name_or (system_common_name s) system_common;
        channel = none;
        is_running_status = false;
      } in
      idle (emit m r) h.closed h.good.capacity
        (emit_messages limit r.messages m h.good.messages whole)
  system_common_byte-IsGood s (some (suc n)) r h f k e =
      let more : (suc n == 0) ≡ false = ground arith in
      rw more (under_way s (suc n) none r h (data_length_common s f k ∙ e) (omega arith) tt)

  pub channel_byte-Returns :
      (s : ℕ) (r : Run)
      → IsPlain limit r
      → 0x80 ≤ s
      → s ≤ 0xEF
      → Returns (IsGood limit) (channel_byte s (channel_status_data_bytes (s / 16)) r)
  unfolding channel_byte
  channel_byte-Returns s r h lo hi =
      let (n, table, size, positive) = data_length_channel s lo hi in
      rw table (
        under_way s n (if r.parser.enable_running_status then some s else none) r h size positive
          (ground arith))

  pub sysex_opened :
      (r : Run)
      → IsGood limit r
      → IsGood limit
          (with_parser (λ p. set_running none (set_active none false 0 [] (set_sysex true [] p))) r)
  sysex_opened r h = record {
    parser = record { active = (refl, refl); running = tt; exclusive = (refl, refl, tt, zero-le) };
    capacity = h.capacity;
    messages = h.messages;
  }

  pub consume_status_byte-Returns :
      (s : ℕ) (r : Run)
      → IsPlain limit r
      → 0x80 ≤ s
      → is_realtime s ≡ false
      → Returns (IsGood limit) (consume_status_byte s r)
  unfolding consume_status_byte
  consume_status_byte-Returns s r h high f = elim (Bool-cases (is_channel_status s)) [
    | inl e ↦ rw e (channel_byte-Returns s r h high (ground arith))
    | inr e ↦ rw e (elim (Bool-cases (s == 0xF0)) [
      | inl e' ↦ rw e' (sysex_opened r h.good)
      | inr e' ↦ rw e' (elim (Bool-cases (s == 0xF7)) [
        | inl e'' ↦
            rw e'' (
              idle (report unexpected_sysex_end (some s) r) h.closed h.good.capacity
                h.good.messages)
        | inr e'' ↦ rw e'' (system_common_byte-IsGood s (system_common_data_bytes s) r h f e refl)
      ])
    ])
  ]
