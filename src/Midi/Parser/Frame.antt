-- ===== src/Midi/Parser/Frame.antt =====
-- A byte only adds to the two lists of a call: what was in them stays at their front, and is not
-- looked at (core/midi/byte_stream_parser.py).
use control_ok_a_v.Base.{
  ℕ, ◌≡◌, refl, ap, List, [], ◌∷◌, ◌++◌, true, Option, none, some, ◌==◌, leb, ltb, length, Result,
  ok, err, Bool-cases, inl, inr,
}
use mathlib.Core.List.{append_assoc}
use control_ok_a_v.Midi.Parser.Model.{
  ParsedMidiMessage, MidiParseIssue, Run, ParserError, is_realtime, is_channel_status,
}
use control_ok_a_v.Midi.Parser.Consume.{
  finalize, finalize_if_complete, resume, without_active, data_byte, consume_data_byte,
  system_common_byte, channel_byte, consume_status_byte, realtime_byte, consume_plain_byte,
  store_sysex_byte, sysex_byte, consume_byte,
}

-- The run with these messages and issues before its own.
abbrev pub after : List ParsedMidiMessage → List MidiParseIssue → Run → Run
after ms is r = record r { messages = ms ++ r.messages; issues = is ++ r.issues }

abbrev pub after_result :
    List ParsedMidiMessage → List MidiParseIssue → Result ParserError Run → Result ParserError Run
after_result ms is (ok r) = ok (after ms is r)
after_result ms is (err e) = err e

module _ (ms : List ParsedMidiMessage) (is : List MidiParseIssue) where
  emitted :
      (r : Run) (ys : List ParsedMidiMessage)
      → record (after ms is r) { messages = (ms ++ r.messages) ++ ys }
        ≡ after ms is (record r { messages = r.messages ++ ys })
  emitted r ys = rw (append_assoc ms r.messages ys) refl

  reported :
      (r : Run) (ys : List MidiParseIssue)
      → record (after ms is r) { issues = (is ++ r.issues) ++ ys }
        ≡ after ms is (record r { issues = r.issues ++ ys })
  reported r ys = rw (append_assoc is r.issues ys) refl

  finalize-after :
      (o : Option ℕ) (r : Run) → finalize o (after ms is r) ≡ after ms is (finalize o r)
  unfolding finalize
  finalize-after none r = refl
  finalize-after (some s) r =
      elim (Bool-cases (ltb (length r.parser.pending_data) r.parser.expected_data_len)) [
        | inl e ↦ rw e refl
        | inr e ↦ rw e (rw (append_assoc ms r.messages _) refl)
      ]

  resume-after :
      (v s : ℕ) (o : Option ℕ) (r : Run)
      → resume v s o (after ms is r) ≡ after_result ms is (resume v s o r)
  unfolding resume finalize_if_complete
  resume-after v s none r = refl
  resume-after v s (some n) r = ap ok (
      finalize-after (some s) (record r {
        parser = record r.parser {
          active_status = some s;
          active_from_running_status = true;
          expected_data_len = n;
          pending_data = v ∷ [];
        };
      }))

  without_active-after :
      (v : ℕ) (o : Option ℕ) (r : Run)
      → without_active v o (after ms is r) ≡ after_result ms is (without_active v o r)
  unfolding without_active
  without_active-after v none r = ap ok (reported r _)
  without_active-after v (some s) r = elim (Bool-cases r.parser.enable_running_status) [
    | inl e ↦ simp e (resume-after v s _ r)
    | inr e ↦ simp e (ap ok (reported r _))
  ]

  data_byte-after :
      (v : ℕ) (o : Option ℕ) (r : Run)
      → data_byte v o (after ms is r) ≡ after_result ms is (data_byte v o r)
  unfolding data_byte finalize_if_complete
  data_byte-after v none r = without_active-after v _ r
  data_byte-after v (some s) r = ap ok (
      finalize-after r.parser.active_status (record r {
        parser = record r.parser { pending_data = r.parser.pending_data ++ (v ∷ []) };
      }))

  system_common_byte-after :
      (s : ℕ) (o : Option ℕ) (r : Run)
      → system_common_byte s o (after ms is r) ≡ after ms is (system_common_byte s o r)
  unfolding system_common_byte
  system_common_byte-after s none r = rw (append_assoc is r.issues _) refl
  system_common_byte-after s (some n) r = elim (Bool-cases (n == 0)) [
    | inl e ↦ rw e (rw (append_assoc ms r.messages _) refl)
    | inr e ↦ rw e refl
  ]

  channel_byte-after :
      (s : ℕ) (o : Option ℕ) (r : Run)
      → channel_byte s o (after ms is r) ≡ after_result ms is (channel_byte s o r)
  unfolding channel_byte
  channel_byte-after s none r = refl
  channel_byte-after s (some n) r = refl

  consume_status_byte-after :
      (s : ℕ) (r : Run)
      → consume_status_byte s (after ms is r) ≡ after_result ms is (consume_status_byte s r)
  unfolding consume_status_byte
  consume_status_byte-after s r = elim (Bool-cases (is_channel_status s)) [
    | inl e ↦ rw e (channel_byte-after s _ r)
    | inr e ↦ rw e (elim (Bool-cases (s == 0xF0)) [
      | inl e' ↦ rw e' refl
      | inr e' ↦ rw e' (elim (Bool-cases (s == 0xF7)) [
        | inl e'' ↦ rw e'' (rw (append_assoc is r.issues _) refl)
        | inr e'' ↦ rw e'' (ap ok (system_common_byte-after s _ r))
      ])
    ])
  ]

  realtime_byte-after :
      (v : ℕ) (r : Run) → realtime_byte v (after ms is r) ≡ after ms is (realtime_byte v r)
  unfolding realtime_byte
  realtime_byte-after v r = emitted r _

  consume_plain_byte-after :
      (v : ℕ) (r : Run)
      → consume_plain_byte v (after ms is r) ≡ after_result ms is (consume_plain_byte v r)
  unfolding consume_plain_byte consume_data_byte
  consume_plain_byte-after v r = elim (Bool-cases (is_realtime v)) [
    | inl e ↦ rw e (ap ok (realtime_byte-after v r))
    | inr e ↦ rw e (elim (Bool-cases (leb 0x80 v)) [
      | inl e' ↦ rw e' (consume_status_byte-after v r)
      | inr e' ↦ rw e' (data_byte-after v _ r)
    ])
  ]

  store_sysex_byte-after :
      (v : ℕ) (r : Run) → store_sysex_byte v (after ms is r) ≡ after ms is (store_sysex_byte v r)
  unfolding store_sysex_byte
  store_sysex_byte-after v r =
      elim (Bool-cases (ltb r.parser.max_sysex_bytes (length (r.parser.sysex_data ++ (v ∷ []))))) [
        | inl e ↦ rw e (rw (append_assoc is r.issues _) refl)
        | inr e ↦ rw e refl
      ]

  sysex_byte-after :
      (v : ℕ) (r : Run) → sysex_byte v (after ms is r) ≡ after_result ms is (sysex_byte v r)
  unfolding sysex_byte
  sysex_byte-after v r = elim (Bool-cases (v == 0xF7)) [
    | inl e ↦ rw e (rw (append_assoc ms r.messages _) refl)
    | inr e ↦ rw e (elim (Bool-cases (leb 0x80 v)) [
      | inl e' ↦ rw e' (rw (append_assoc is r.issues _) (consume_plain_byte-after v _))
      | inr e' ↦ rw e' (ap ok (store_sysex_byte-after v r))
    ])
  ]

  pub consume_byte-after :
      (v : ℕ) (r : Run) → consume_byte v (after ms is r) ≡ after_result ms is (consume_byte v r)
  unfolding consume_byte
  consume_byte-after v r = elim (Bool-cases (is_realtime v)) [
    | inl e ↦ rw e (ap ok (realtime_byte-after v r))
    | inr e ↦ rw e (elim (Bool-cases r.parser.in_sysex) [
      | inl e' ↦ simp e' (sysex_byte-after v r)
      | inr e' ↦ simp e' (consume_plain_byte-after v r)
    ])
  ]
