-- ===== src/Midi/Router/Kept.antt =====
-- No message of a router is lost, doubled or made up, also where a closing overtakes a send
-- (core/midi/midi_router.py).
use mathlib.Core.List.{
  append_assoc, append-nil, Perm, perm_append_comm, perm-append_left_iff, perm-append_right_iff,
}
use mathlib.Core.List.Perm
use Prim.Derive.{subst}
use control_ok_a_v.Base.{
  ℕ, ◌+◌, ◌≡◌, refl, ap, sym, ◌∙◌, Bool, true, false, List, [], ◌∷◌, ◌++◌, Option, none, some,
  String,
}
use control_ok_a_v.Base.Dict.{Dict, lookup, nat_eq}
use control_ok_a_v.Midi.Router.Model.{
  Mido, emit, sent, failed, not_open, MidiRouter, take_pending, deliver_at, deliver, deliver_all,
  flush, close_ports, close,
}
use control_ok_a_v.Midi.Router.Steps.{
  Flow, accepted, tried, attempted, Step, note_on_called, note_off_called, raw_called, panicked,
  taken, delivered, sent_late, appended_late, closed, Run, begun, step,
}
use control_ok_a_v.Midi.Router.Feeding.{
  tried-append, IsFed, send_note_on-IsFed, send_note_off-IsFed, send_raw_midi-IsFed,
  panic_all_notes_off-IsFed,
}

module _ {Msg : Type 0} where
  -- All messages of a state: those that were tried, those in flight, and those queued.
  abbrev pub kept : Flow Msg → List (ℕ × Msg)
  kept s = tried s.router.effects ++ (s.in_flight ++ s.router.queue)

  deliver_at-tried :
      (o : Option String) (raises : Bool) (bus : ℕ) (msg : Msg) (r : MidiRouter Msg)
      → (tried (deliver_at o raises bus msg r).1.effects ≡ tried r.effects ++ ((bus, msg) ∷ []))
        × ((deliver_at o raises bus msg r).1.queue ≡ r.queue)
  deliver_at-tried none raises bus msg r = (tried-append r.effects (not_open bus msg ∷ []), refl)
  deliver_at-tried (some port) true bus msg r = (tried-append r.effects (failed bus msg ∷ []), refl)
  deliver_at-tried (some port) false bus msg r = (tried-append r.effects (sent bus msg ∷ []), refl)

  deliver-tried :
      (raises : Bool) (m : ℕ × Msg) (r : MidiRouter Msg)
      → (tried (deliver raises m r).1.effects ≡ tried r.effects ++ (m ∷ []))
        × ((deliver raises m r).1.queue ≡ r.queue)
  unfolding deliver
  deliver-tried raises (bus, msg) r = deliver_at-tried (lookup bus r.ports) raises bus msg r

  deliver_all-tried :
      (raises : ℕ → Bool) (ms : List (ℕ × Msg)) (count : ℕ) (r : MidiRouter Msg)
      → (tried (deliver_all raises ms count r).1.effects ≡ tried r.effects ++ ms)
        × ((deliver_all raises ms count r).1.queue ≡ r.queue)
  unfolding deliver_all
  deliver_all-tried raises [] count r = (sym (append-nil _), refl)
  deliver_all-tried raises (m ∷ ms) count r =
      let (here, queue) = deliver-tried (raises 0) m r in
      let after = (deliver (raises 0) m r).1 in
      let (rest, last) =
        deliver_all-tried (λ i. raises (i + 1)) ms (count + (deliver (raises 0) m r).0) after in
      (rest ∙ ap (λ h. h ++ ms) here ∙ append_assoc (tried r.effects) (m ∷ []) ms, last ∙ queue)

  flush-tried :
      (raises : ℕ → Bool) (q : List (ℕ × Msg)) (r : MidiRouter Msg)
      → r.queue ≡ q
      → (tried (flush raises r).1.effects ≡ tried r.effects ++ r.queue)
        × ((flush raises r).1.queue ≡ [])
  unfolding flush take_pending
  flush-tried raises [] r e = simp e (sym (append-nil _), refl)
  flush-tried raises (m ∷ ms) r e =
      simp e (deliver_all-tried raises (m ∷ ms) 0 (record r { queue = [] }))

  close_ports-tried :
      (ports : Dict ℕ String) (r : MidiRouter Msg)
      → (tried (close_ports ports r).effects ≡ tried r.effects)
        × ((close_ports ports r).queue ≡ r.queue)
  close_ports-tried [] r = (refl, refl)
  close_ports-tried ((bus, name) ∷ ports) r = close_ports-tried ports _

  close-tried :
      (raises : ℕ → Bool) (r : MidiRouter Msg)
      → (tried (close raises r).effects ≡ tried r.effects ++ r.queue)
        × ((close raises r).queue ≡ [])
  unfolding close
  close-tried raises r =
      let flushed = (flush raises r).1 in
      let (effects, queue) = close_ports-tried flushed.ports flushed in
      let (here, none_left) = flush-tried raises r.queue r refl in
      (effects ∙ here, queue ∙ none_left)

  attempted-tried :
      (raises : Bool) (m : ℕ × Msg) (r : MidiRouter Msg)
      → tried (emit (attempted raises m) r).effects ≡ tried r.effects ++ (m ∷ [])
  attempted-tried true (bus, msg) r = tried-append r.effects (failed bus msg ∷ [])
  attempted-tried false (bus, msg) r = tried-append r.effects (sent bus msg ∷ [])

  same_kept : {xs : List (ℕ × Msg)} {ys : List (ℕ × Msg)} → xs ≡ ys → Perm xs ys
  same_kept {xs} same = subst (λ l. Perm xs l) same Perm.rfl

  -- One message of those in flight is tried.
  tried-kept :
      (t : List (ℕ × Msg)) (m : ℕ × Msg) (rest q : List (ℕ × Msg)) {t' : List (ℕ × Msg)}
      {q' : List (ℕ × Msg)}
      → t' ≡ t ++ (m ∷ [])
      → q' ≡ q
      → t' ++ (rest ++ q') ≡ (t ++ ((m ∷ rest) ++ q)) ++ []
  tried-kept t m rest q {q'} tries queue =
      ap (λ h. h ++ (rest ++ q')) tries
      ∙ ap (λ k. t ++ (m ∷ []) ++ (rest ++ k)) queue
      ∙ append_assoc t (m ∷ []) (rest ++ q)
      ∙ sym (append-nil _)

  fed-kept :
      (r r' : MidiRouter Msg) (flight ms : List (ℕ × Msg))
      → IsFed r r' ms
      → kept (record { router = r'; in_flight = flight })
        ≡ kept (record { router = r; in_flight = flight }) ++ accepted r.ports ms
  fed-kept r r' flight ms fed =
      ap (λ h. h ++ (flight ++ r'.queue)) fed.untried
      ∙ ap (λ q. tried r.effects ++ (flight ++ q)) fed.queued
      ∙ ap (λ q. tried r.effects ++ q) (sym (append_assoc flight r.queue (accepted r.ports ms)))
      ∙ sym (append_assoc (tried r.effects) (flight ++ r.queue) (accepted r.ports ms))

  appended-kept :
      (t flight q : List (ℕ × Msg)) (m : ℕ × Msg)
      → t ++ (flight ++ (q ++ (m ∷ []))) ≡ (t ++ (flight ++ q)) ++ (m ∷ [])
  appended-kept t flight q m =
      ap (λ k. t ++ k) (sym (append_assoc flight q (m ∷ [])))
      ∙ sym (append_assoc t (flight ++ q) (m ∷ []))

  -- The queue is tried before those in flight.
  closed-kept :
      (r : MidiRouter Msg) (flight : List (ℕ × Msg)) (raises : ℕ → Bool)
      → Perm
          (kept (record { router = close raises r; in_flight = flight }))
          (kept (record { router = r; in_flight = flight }) ++ [])
  closed-kept r flight raises =
      let (here, none_left) = close-tried raises r in
      let same : tried r.effects ++ (r.queue ++ flight)
          ≡ kept (record { router = close raises r; in_flight = flight }) =
        sym (append_assoc (tried r.effects) r.queue flight)
        ∙ ap (λ h. h ++ flight) (sym here)
        ∙ ap (λ k. tried (close raises r).effects ++ k)
            (sym (append-nil flight) ∙ ap (λ q. flight ++ q) (sym none_left)) in
      subst (λ l. Perm l (kept (record { router = r; in_flight = flight }) ++ [])) same
        (subst (λ l. Perm (tried r.effects ++ (r.queue ++ flight)) l) (sym (append-nil _))
          ((perm-append_left_iff (tried r.effects)).1 (perm_append_comm r.queue flight)))

module _ {Msg : Type 0} (mido : Mido Msg) where
  step-kept :
      (s t : Flow Msg) (ys : List (ℕ × Msg)) → Step mido s ys t → Perm (kept t) (kept s ++ ys)
  unfolding take_pending
  step-kept s t ys (note_on_called r r' flight bus ch note vel e) =
      same_kept (fed-kept r r' flight _ (send_note_on-IsFed mido r r' bus ch note vel e))
  step-kept s t ys (note_off_called r r' flight bus ch note vel e) =
      same_kept (fed-kept r r' flight _ (send_note_off-IsFed mido r r' bus ch note vel e))
  step-kept s t ys (raw_called r r' flight bus payload msg e is) =
      same_kept (fed-kept r r' flight _ (send_raw_midi-IsFed mido r r' bus payload msg e is))
  step-kept s t ys (panicked r flight) =
      same_kept (fed-kept r _ flight _ (panic_all_notes_off-IsFed mido r))
  step-kept s t ys (taken r) = same_kept (
      ap (λ q. tried r.effects ++ q) (append-nil r.queue)
      ∙ sym (append-nil (tried r.effects ++ r.queue)))
  step-kept s t ys (delivered r raises m rest) =
      let (tries, queue) = deliver-tried raises m r in
      same_kept (tried-kept (tried r.effects) m rest r.queue tries queue)
  step-kept s t ys (sent_late r raises m rest) =
      same_kept (tried-kept (tried r.effects) m rest r.queue (attempted-tried raises m r) refl)
  step-kept s t ys (appended_late r flight m) =
      same_kept (appended-kept (tried r.effects) flight r.queue m)
  step-kept s t ys (closed r flight raises) = closed-kept r flight raises

  run-kept : (s t : Flow Msg) (xs : List (ℕ × Msg)) → Run mido s xs t → Perm (kept t) (kept s ++ xs)
  run-kept s t xs begun = same_kept (sym (append-nil (kept s)))
  run-kept s u zs (step {xs = as_far} {ys = more} {t} run one) =
      Perm.trans (step-kept t u more one) (
        subst (λ l. Perm (kept t ++ more) l) (append_assoc (kept s) as_far more)
          ((perm-append_right_iff more).1 (run-kept s t as_far run)))

  -- Let a router have nothing queued and nothing sent. Whatever steps follow, also where a closing
  -- overtakes a send or a message is appended late: the messages that were sent, that failed, and that
  -- found their port closed, those in flight and those still queued are together the ones that were
  -- taken, each as often as it was taken.
  pub messages_are_kept :
      (r : MidiRouter Msg) (t : Flow Msg) (xs : List (ℕ × Msg))
      → r.queue ≡ []
      → r.effects ≡ []
      → Run mido (record { router = r; in_flight = [] }) xs t
      → Perm (tried t.router.effects ++ (t.in_flight ++ t.router.queue)) xs
  messages_are_kept r t xs queue effects run =
      let none_yet : kept (record { router = r; in_flight = [] }) ≡ [] = rw (queue, effects) refl in
      subst (λ l. Perm (kept t) (l ++ xs)) none_yet
        (run-kept (record { router = r; in_flight = [] }) t xs run)
