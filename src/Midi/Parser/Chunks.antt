-- ===== src/Midi/Parser/Chunks.antt =====
-- A chunk as a whole: what feeding it gives, and that it does not matter how a stream is cut into
-- chunks (core/midi/byte_stream_parser.py).
use control_ok_a_v.Base.{
  ℕ, ◌≡◌, refl, ap, sym, ◌∙◌, ◌⊎◌, true, false, inl, inr, Result-cases, List, [], ◌∷◌, ◌++◌, Bool,
  Result, ok, err, ◌>>=◌, ◌||◌, if◌then◌else◌, none, some,
}
use mathlib.Core.List.{append-nil}
use control_ok_a_v.Base.Int.{ℤ, pos, pos_part, ltb_ℤ}
use control_ok_a_v.Base.Bytes.{Bytes}
use control_ok_a_v.Midi.Parser.Model.{
  ParsedMidiMessage, MidiParseIssue, invalid_byte_type, byte_out_of_range, Parser, Run, ParserError,
  overflow_error, init,
}
use control_ok_a_v.Midi.Parser.Consume.{consume_byte}
use control_ok_a_v.Midi.Parser.Feed.{
  RawValue, number, not_a_number, infinite, coerce_values, sequence, Chunk, byte_string,
  coerce_bytes, consume_all, feed,
}
use control_ok_a_v.Midi.Parser.WellFormed.{IsWellFormed, IsGood, Returns}
use control_ok_a_v.Midi.Parser.Frame.{after, after_result, consume_byte-after}
use control_ok_a_v.Midi.Parser.Invariant.{consume_byte-IsGood}

Returns->>= :
    (P : Run → Type 0) (m : Result ParserError Run) (f : Run → Result ParserError Run)
    → Returns P m
    → ((r : Run) → P r → Returns P (f r))
    → Returns P (m >>= f)
Returns->>= P (ok r) f h k = k r h
Returns->>= P (err e) f h k = h

consume_all-IsGood :
    (limit : ℕ) (values : Bytes) (r : Run)
    → IsGood limit r
    → Returns (IsGood limit) (consume_all values r)
unfolding consume_all
consume_all-IsGood limit [] r h = h
consume_all-IsGood limit (v ∷ rest) r h =
    Returns->>= (IsGood limit) (consume_byte v r) (consume_all rest)
      (consume_byte-IsGood limit v r h) (λ r' g. consume_all-IsGood limit rest r' g)

-- A parser just made is well formed, whatever its two parameters.
pub init-IsWellFormed : (running : Bool) (limit : ℤ) → IsWellFormed (init running limit)
unfolding init
init-IsWellFormed running limit = record { active = (refl, refl); running = tt; exclusive = refl }

-- A value of the chunk is an infinite float.
abbrev pub any_infinite : List RawValue → Bool
any_infinite [] = false
any_infinite (infinite ∷ rest) = true
any_infinite (not_a_number ∷ rest) = any_infinite rest
any_infinite (number v ∷ rest) = any_infinite rest

abbrev pub has_infinite : Chunk → Bool
has_infinite (byte_string bytes) = false
has_infinite (sequence values) = any_infinite values

-- What a value that is not infinite adds to the bytes or to the issues.
abbrev coerced : RawValue → Bytes × List MidiParseIssue → Bytes × List MidiParseIssue
coerced infinite (bytes, issues) = (bytes, issues)
coerced not_a_number (bytes, issues) =
    (bytes, record { code = invalid_byte_type; byte_value = none } ∷ issues)
coerced (number v) (bytes, issues) =
    if ltb_ℤ v (pos 0) || ltb_ℤ (pos 255) v
    then (bytes, record { code = byte_out_of_range; byte_value = some v } ∷ issues)
    else (pos_part v ∷ bytes, issues)

coerce_values_lem :
    (values : List RawValue)
    → ((any_infinite values ≡ true) × (coerce_values values ≡ err overflow_error))
      ⊎ ((any_infinite values ≡ false)
          × ((q : Bytes × List MidiParseIssue) × (coerce_values values ≡ ok q)))
unfolding coerce_values
coerce_values_lem [] = inr (refl, (([], []), refl))
coerce_values_lem (infinite ∷ rest) = inl (refl, refl)
coerce_values_lem (not_a_number ∷ rest) = elim (coerce_values_lem rest) [
  | inl (has, e) ↦ inl (has, ap (λ m. m >>= λ q. ok (coerced not_a_number q)) e)
  | inr (has, (q, e)) ↦
      inr (has, (coerced not_a_number q, ap (λ m. m >>= λ q. ok (coerced not_a_number q)) e))
]
coerce_values_lem (number v ∷ rest) = elim (coerce_values_lem rest) [
  | inl (has, e) ↦ inl (has, ap (λ m. m >>= λ q. ok (coerced (number v) q)) e)
  | inr (has, (q, e)) ↦
      inr (has, (coerced (number v) q, ap (λ m. m >>= λ q. ok (coerced (number v) q)) e))
]

coerce_bytes_lem :
    (chunk : Chunk)
    → ((has_infinite chunk ≡ true) × (coerce_bytes chunk ≡ err overflow_error))
      ⊎ ((has_infinite chunk ≡ false)
          × ((q : Bytes × List MidiParseIssue) × (coerce_bytes chunk ≡ ok q)))
unfolding coerce_bytes
coerce_bytes_lem (byte_string bytes) = inr (refl, ((bytes, []), refl))
coerce_bytes_lem (sequence values) = coerce_values_lem values

-- What a call of `feed` on a chunk does, by whether the chunk has an infinite float: it raises, or it
-- leaves a good parser and good messages.
abbrev pub IsRead : Chunk → ℕ → Result ParserError Run → Type 0
IsRead chunk limit result =
    ((has_infinite chunk ≡ true) × (result ≡ err overflow_error))
    ⊎ ((has_infinite chunk ≡ false) × Returns (IsGood limit) result)

-- A well-formed parser is fed: a chunk of bytes or of other values that has an infinite float raises an
-- `OverflowError`. Every other chunk is read and raises nothing: the parser stays well formed, with its
-- limit, and every message that comes out is whole.
pub feed-IsGood :
    (chunk : Chunk) (p : Parser) → IsWellFormed p → IsRead chunk p.max_sysex_bytes (feed chunk p)
unfolding feed
feed-IsGood chunk p h = elim (coerce_bytes_lem chunk) [
  | inl (has, e) ↦ inl (has, rw e refl)
  | inr (has, ((values, issues), e)) ↦ inr (
    has,
    rw e (
        consume_all-IsGood p.max_sysex_bytes values
          (record { parser = p; messages = []; issues = issues })
          (record { parser = h; capacity = refl; messages = tt })),
  )
]

consume_all-after :
    (ms : List ParsedMidiMessage) (is : List MidiParseIssue) (values : Bytes) (r : Run)
    → consume_all values (after ms is r) ≡ after_result ms is (consume_all values r)
unfolding consume_all
consume_all-after ms is [] r = refl
consume_all-after ms is (v ∷ rest) r =
    rw (consume_byte-after ms is v r) (elim (Result-cases (consume_byte v r)) [
      | inl (r', e) ↦ rw e (consume_all-after ms is rest r')
      | inr (x, e) ↦ rw e refl
    ])

consume_all-append :
    (xs ys : Bytes) (r : Run) → consume_all (xs ++ ys) r ≡ (consume_all xs r >>= consume_all ys)
unfolding consume_all
consume_all-append [] ys r = refl
consume_all-append (v ∷ xs) ys r = elim (Result-cases (consume_byte v r)) [
  | inl (r', e) ↦ rw e (consume_all-append xs ys r')
  | inr (x, e) ↦ rw e refl
]

-- Where a call ended: the next one starts with its parser and empty lists.
consume_all_from :
    (ys : Bytes) (r : Run)
    → consume_all ys r ≡ after_result r.messages r.issues (feed (byte_string ys) r.parser)
unfolding feed coerce_bytes
consume_all_from ys r = sym (
    sym (
      consume_all-after r.messages r.issues ys
        (record { parser = r.parser; messages = []; issues = [] }))
    ∙ ap (consume_all ys) (rw (append-nil r.messages, append-nil r.issues) refl))

-- Two strings of bytes, fed one after the other, leave the parser and give the messages and the
-- issues that their concatenation does, wherever the cut is.
pub feed-append :
    (xs ys : Bytes) (p : Parser)
    → feed (byte_string (xs ++ ys)) p ≡ (
        feed (byte_string xs) p >>= λ r.
        after_result r.messages r.issues (feed (byte_string ys) r.parser))
unfolding feed coerce_bytes
feed-append xs ys p =
    consume_all-append xs ys (record { parser = p; messages = []; issues = [] })
    ∙ ap (λ f. feed (byte_string xs) p >>= f) (λ i r. consume_all_from ys r i)
