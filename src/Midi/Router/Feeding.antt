-- ===== src/Midi/Router/Feeding.antt =====
-- What the methods of a router put in its queue (core/midi/midi_router.py).
use Prim.Derive.{subst}
use mathlib.Core.List.{append_assoc, append-nil}
use control_ok_a_v.Base.{
  ℕ, ◌≡◌, refl, ap, sym, ◌∙◌, ◌||◌, ◌&&◌, ◌==◌, ◌>>=◌, List, [], ◌∷◌, ◌++◌, Option, none, some,
  String, Result, ok, All, Bool-cases, Option-cases, inl, inr, arith, map, >>=-eq-ok,
  raise_if-eq-ok,
}
use control_ok_a_v.Base.Int.{ℤ, pos, pos_part, ltb_ℤ}
use control_ok_a_v.Base.Dict.{Dict, lookup, nat_eq}
use control_ok_a_v.Midi.Router.Model.{
  Mido, Effect, sent, failed, not_open, discarded, MidiRouter, RouterError, bad_byte, empty_data,
  or_bad_message, validate_note_msg, validate_bytes, opened_buses, range, enqueue_at, enqueue,
  is_empty, send_note_on, send_note_off, send_raw_midi, panic_channels, panic_buses,
  panic_all_notes_off,
}
use control_ok_a_v.Midi.Router.Steps.{
  tried, IsOpen, accepted, handed, note_message, channel_ends, bus_ends,
}

module _ {Msg : Type 0} where
  pub handed-append : (es fs : List (Effect Msg)) → handed (es ++ fs) ≡ handed es ++ handed fs
  handed-append [] fs = refl
  handed-append (sent bus msg ∷ es) fs = rw (handed-append es fs) refl
  handed-append (failed bus msg ∷ es) fs = rw (handed-append es fs) refl
  handed-append (not_open bus msg ∷ es) fs = handed-append es fs
  handed-append (discarded bus msg ∷ es) fs = handed-append es fs

  pub tried-append : (es fs : List (Effect Msg)) → tried (es ++ fs) ≡ tried es ++ tried fs
  tried-append [] fs = refl
  tried-append (sent bus msg ∷ es) fs = rw (tried-append es fs) refl
  tried-append (failed bus msg ∷ es) fs = rw (tried-append es fs) refl
  tried-append (not_open bus msg ∷ es) fs = rw (tried-append es fs) refl
  tried-append (discarded bus msg ∷ es) fs = tried-append es fs

  accepted-append :
      (ports : Dict ℕ String) (xs ys : List (ℕ × Msg))
      → accepted ports (xs ++ ys) ≡ accepted ports xs ++ accepted ports ys
  accepted-append ports [] ys = refl
  accepted-append ports ((bus, msg) ∷ xs) ys = elim (Option-cases (lookup bus ports)) [
    | inl e ↦ simp e (accepted-append ports xs ys)
    | inr (port, e) ↦ simp e (rw (accepted-append ports xs ys) refl)
  ]

  pub accepted-IsOpen :
      (ports : Dict ℕ String) (ms : List (ℕ × Msg)) → All (IsOpen ports) (accepted ports ms)
  accepted-IsOpen ports [] = tt
  accepted-IsOpen ports ((bus, msg) ∷ ms) = elim (Option-cases (lookup bus ports)) [
    | inl e ↦ simp e (accepted-IsOpen ports ms)
    | inr (port, e) ↦ simp e ((λ h. cc), accepted-IsOpen ports ms)
  ]

  -- The router `r'` is `r` with the messages of `ms` queued that have a port.
  pub record IsFed (r r' : MidiRouter Msg) (ms : List (ℕ × Msg)) : Type 0 where
    pub queued : r'.queue ≡ r.queue ++ accepted r.ports ms
    pub same : handed r'.effects ≡ handed r.effects
    pub untried : tried r'.effects ≡ tried r.effects
    pub ports : r'.ports ≡ r.ports

  pub nothing-IsFed : (r : MidiRouter Msg) → IsFed r r []
  nothing-IsFed r = record {
    queued = sym (append-nil r.queue);
    same = refl;
    untried = refl;
    ports = refl;
  }

  pub enqueue_at-IsFed :
      (o : Option String) (bus : ℕ) (msg : Msg) (r : MidiRouter Msg)
      → lookup bus r.ports ≡ o
      → IsFed r (enqueue_at o bus msg r) ((bus, msg) ∷ [])
  enqueue_at-IsFed none bus msg r e = record {
    queued = simp e (sym (append-nil r.queue));
    same = handed-append r.effects _ ∙ append-nil _;
    untried = tried-append r.effects _ ∙ append-nil _;
    ports = refl;
  }
  enqueue_at-IsFed (some port) bus msg r e = record {
    queued = simp e refl;
    same = refl;
    untried = refl;
    ports = refl;
  }

  pub enqueue-IsFed :
      (bus : ℕ) (msg : Msg) (r : MidiRouter Msg) → IsFed r (enqueue bus msg r) ((bus, msg) ∷ [])
  unfolding enqueue
  enqueue-IsFed bus msg r = enqueue_at-IsFed (lookup bus r.ports) bus msg r refl

  pub IsFed-trans :
      (r r' r'' : MidiRouter Msg) (xs ys : List (ℕ × Msg))
      → IsFed r r' xs
      → IsFed r' r'' ys
      → IsFed r r'' (xs ++ ys)
  IsFed-trans r r' r'' xs ys h k = record {
    queued =
        k.queued
        ∙ ap (λ q. q ++ accepted r'.ports ys) h.queued
        ∙ ap (λ p. r.queue ++ accepted r.ports xs ++ accepted p ys) h.ports
        ∙ append_assoc r.queue (accepted r.ports xs) (accepted r.ports ys)
        ∙ ap (λ q. r.queue ++ q) (sym (accepted-append r.ports xs ys));
    same = k.same ∙ h.same;
    untried = k.untried ∙ h.untried;
    ports = k.ports ∙ h.ports;
  }

validate_note_msg-eq :
    (ch note vel : ℤ) (c n v : ℕ)
    → validate_note_msg ch note vel ≡ ok (c, n, v)
    → (c ≡ pos_part ch) × (n ≡ pos_part note) × (v ≡ pos_part vel)
unfolding validate_note_msg
validate_note_msg-eq ch note vel c n v h = ground arith

validate_bytes-eq :
    (payload : List ℤ) (values : List ℕ)
    → validate_bytes payload ≡ ok values
    → values ≡ map pos_part payload
unfolding validate_bytes
validate_bytes-eq [] values h = cc
validate_bytes-eq (value ∷ payload) values h =
    let (_, h1) =
      raise_if-eq-ok (ltb_ℤ value (pos 0) || ltb_ℤ (pos 255) value) bad_byte
        (validate_bytes payload >>= λ rest. ok (pos_part value ∷ rest)) h in
    let (rest, is, h2) =
      >>=-eq-ok (validate_bytes payload) (λ rest. ok (pos_part value ∷ rest)) h1 in
    let same : rest ≡ map pos_part payload = validate_bytes-eq payload rest is in cc

module _ {Msg : Type 0} (mido : Mido Msg) where
  pub send_note_off-IsFed :
      (r r' : MidiRouter Msg) (bus : ℕ) (ch note vel : ℤ)
      → send_note_off mido bus ch note vel r ≡ ok r'
      → IsFed r r' ((bus, mido.note_off (pos_part ch) (pos_part note) (pos_part vel)) ∷ [])
  unfolding send_note_off
  send_note_off-IsFed r r' bus ch note vel h =
      let ((c, n, v), is, h1) = >>=-eq-ok (validate_note_msg ch note vel) _ h in
      let (same_c, same_n, same_v) = validate_note_msg-eq ch note vel c n v is in
      let at : enqueue bus (mido.note_off (pos_part ch) (pos_part note) (pos_part vel)) r ≡ r' =
        cc in
      subst
        (λ q. IsFed r q ((bus, mido.note_off (pos_part ch) (pos_part note) (pos_part vel)) ∷ [])) at
        (enqueue-IsFed bus _ r)

  pub send_note_on-IsFed :
      (r r' : MidiRouter Msg) (bus : ℕ) (ch note vel : ℤ)
      → send_note_on mido bus ch note vel r ≡ ok r'
      → IsFed r r' (
          (
            bus,
            note_message mido r.send_noteoff_on_vel0 (pos_part ch) (pos_part note) (pos_part vel),
          )
          ∷ [])
  unfolding send_note_on
  send_note_on-IsFed r r' bus ch note vel h =
      let ((c, n, v), is, h1) = >>=-eq-ok (validate_note_msg ch note vel) _ h in
      let (same_c, same_n, same_v) = validate_note_msg-eq ch note vel c n v is in
      elim (Bool-cases (pos_part vel == 0 && r.send_noteoff_on_vel0)) [
        | inl e ↦
            let off : send_note_off mido bus ch note (pos 0) r ≡ ok r' = cc in
            simp e (send_note_off-IsFed r r' bus ch note (pos 0) off)
        | inr e ↦
            let at : enqueue bus (mido.note_on (pos_part ch) (pos_part note) (pos_part vel)) r
                ≡ r' =
              cc in
            simp e (
              subst
                (λ q.
                  IsFed r q ((bus, mido.note_on (pos_part ch) (pos_part note) (pos_part vel)) ∷ []))
                at (enqueue-IsFed bus _ r))
      ]

  pub send_raw_midi-IsFed :
      (r r' : MidiRouter Msg) (bus : ℕ) (payload : List ℤ) (msg : Msg)
      → send_raw_midi mido bus payload r ≡ ok r'
      → mido.from_bytes (map pos_part payload) ≡ some msg
      → IsFed r r' ((bus, msg) ∷ [])
  unfolding send_raw_midi
  send_raw_midi-IsFed r r' bus payload msg h e =
      let built : List ℕ → Result RouterError (MidiRouter Msg) =
        λ values. or_bad_message (mido.from_bytes values) >>= (λ m. ok (enqueue bus m r)) in
      let (_, h1) =
        raise_if-eq-ok (is_empty payload) empty_data (validate_bytes payload >>= built) h in
      let (values, is, h2) = >>=-eq-ok (validate_bytes payload) built h1 in
      let same : values ≡ map pos_part payload = validate_bytes-eq payload values is in
      let at : enqueue bus msg r ≡ r' = cc in
      subst (λ q. IsFed r q ((bus, msg) ∷ [])) at (enqueue-IsFed bus _ r)

  panic_channels-IsFed :
      (bus : ℕ) (chs : List ℕ) (r : MidiRouter Msg)
      → IsFed r (panic_channels mido bus chs r) (channel_ends mido bus chs)
  unfolding panic_channels
  panic_channels-IsFed bus [] r = nothing-IsFed r
  panic_channels-IsFed bus (ch ∷ chs) r =
      IsFed-trans r _ _ ((bus, mido.control_change ch 123 0) ∷ []) (channel_ends mido bus chs)
        (enqueue-IsFed bus _ r) (panic_channels-IsFed bus chs _)

  panic_buses-IsFed :
      (buses : List ℕ) (r : MidiRouter Msg)
      → IsFed r (panic_buses mido buses r) (bus_ends mido buses)
  unfolding panic_buses
  panic_buses-IsFed [] r = nothing-IsFed r
  panic_buses-IsFed (bus ∷ buses) r =
      IsFed-trans r _ _ (channel_ends mido bus (range 0 16)) (bus_ends mido buses)
        (panic_channels-IsFed bus (range 0 16) r) (panic_buses-IsFed buses _)

  pub panic_all_notes_off-IsFed :
      (r : MidiRouter Msg)
      → IsFed r (panic_all_notes_off mido r) (bus_ends mido (opened_buses r.ports))
  unfolding panic_all_notes_off
  panic_all_notes_off-IsFed r = panic_buses-IsFed (opened_buses r.ports) r
