-- ===== src/Midi/Router/Order.antt =====
-- Every message that a router takes is handed to its port once, in order (core/midi/midi_router.py).
use Prim.Derive.{subst}
use mathlib.Core.List.{append_assoc, append-nil}
use control_ok_a_v.Base.{
  ℕ, ◌+◌, ◌≡◌, ◌≢◌, refl, ap, sym, ◌∙◌, Bool, true, false, List, [], ◌∷◌, ◌++◌, Option, none, some,
  String, All, All-append,
}
use control_ok_a_v.Base.Dict.{Dict, lookup, nat_eq}
use control_ok_a_v.Midi.Router.Model.{
  Mido, emit, sent, failed, MidiRouter, take_pending, deliver_at, deliver, deliver_all, flush,
  close_ports, close,
}
use control_ok_a_v.Midi.Router.Steps.{
  Flow, IsOpen, IsOrderlyStep, IsOrderly, attempted, sent_late, appended_late, accepted, handed,
  Step, note_on_called, note_off_called, raw_called, panicked, taken, delivered, closed, Run, begun,
  step,
}
use control_ok_a_v.Midi.Router.Feeding.{
  handed-append, accepted-IsOpen, IsFed, send_note_on-IsFed, send_note_off-IsFed,
  send_raw_midi-IsFed, panic_all_notes_off-IsFed,
}

module _ {Msg : Type 0} where
  -- What was handed to ports, what is in flight and what is queued is `xs`, and what is to come has
  -- ports.
  pub record IsFlowing (s : Flow Msg) (xs : List (ℕ × Msg)) : Type 0 where
    pub order : handed s.router.effects ++ (s.in_flight ++ s.router.queue) ≡ xs
    pub opened : All (IsOpen s.router.ports) (s.in_flight ++ s.router.queue)

  fed-IsFlowing :
      (r r' : MidiRouter Msg) (flight xs ms : List (ℕ × Msg))
      → IsFed r r' ms
      → IsFlowing (record { router = r; in_flight = flight }) xs
      → IsFlowing (record { router = r'; in_flight = flight }) (xs ++ accepted r.ports ms)
  fed-IsFlowing r r' flight xs ms fed flow = record {
    order =
        ap (λ h. h ++ (flight ++ r'.queue)) fed.same
        ∙ ap (λ q. handed r.effects ++ (flight ++ q)) fed.queued
        ∙ ap (λ q. handed r.effects ++ q) (sym (append_assoc flight r.queue (accepted r.ports ms)))
        ∙ sym (append_assoc (handed r.effects) (flight ++ r.queue) (accepted r.ports ms))
        ∙ ap (λ q. q ++ accepted r.ports ms) flow.order;
    opened =
        rw (fed.ports, fed.queued, sym (append_assoc flight r.queue (accepted r.ports ms)))
          (All-append (IsOpen r.ports) (flight ++ r.queue) (accepted r.ports ms) flow.opened
            (accepted-IsOpen r.ports ms));
  }

  deliver_at-handed :
      (o : Option String) (raises : Bool) (bus : ℕ) (msg : Msg) (r : MidiRouter Msg)
      → o ≢ none
      → (handed (deliver_at o raises bus msg r).1.effects ≡ handed r.effects ++ ((bus, msg) ∷ []))
        × ((deliver_at o raises bus msg r).1.queue ≡ r.queue)
        × ((deliver_at o raises bus msg r).1.ports ≡ r.ports)
  deliver_at-handed none raises bus msg r have = absurd (have refl)
  deliver_at-handed (some port) true bus msg r have =
      (handed-append r.effects (failed bus msg ∷ []), refl, refl)
  deliver_at-handed (some port) false bus msg r have =
      (handed-append r.effects (sent bus msg ∷ []), refl, refl)

  deliver-handed :
      (raises : Bool) (m : ℕ × Msg) (r : MidiRouter Msg)
      → IsOpen r.ports m
      → (handed (deliver raises m r).1.effects ≡ handed r.effects ++ (m ∷ []))
        × ((deliver raises m r).1.queue ≡ r.queue)
        × ((deliver raises m r).1.ports ≡ r.ports)
  unfolding deliver
  deliver-handed raises (bus, msg) r have =
      deliver_at-handed (lookup bus r.ports) raises bus msg r have

  deliver_all-handed :
      (raises : ℕ → Bool) (ms : List (ℕ × Msg)) (count : ℕ) (r : MidiRouter Msg)
      → All (IsOpen r.ports) ms
      → (handed (deliver_all raises ms count r).1.effects ≡ handed r.effects ++ ms)
        × ((deliver_all raises ms count r).1.queue ≡ r.queue)
  unfolding deliver_all
  deliver_all-handed raises [] count r have = (sym (append-nil _), refl)
  deliver_all-handed raises (m ∷ ms) count r (o, have) =
      let (here, queue, ports) = deliver-handed (raises 0) m r o in
      let after = (deliver (raises 0) m r).1 in
      let (rest, last) =
        deliver_all-handed (λ i. raises (i + 1)) ms (count + (deliver (raises 0) m r).0) after
          (rw ports have) in
      (rest ∙ ap (λ h. h ++ ms) here ∙ append_assoc (handed r.effects) (m ∷ []) ms, last ∙ queue)

  flush-handed :
      (raises : ℕ → Bool) (q : List (ℕ × Msg)) (r : MidiRouter Msg)
      → r.queue ≡ q
      → All (IsOpen r.ports) r.queue
      → (handed (flush raises r).1.effects ≡ handed r.effects ++ r.queue)
        × ((flush raises r).1.queue ≡ [])
  unfolding flush take_pending
  flush-handed raises [] r e have = simp e (sym (append-nil _), refl)
  flush-handed raises (m ∷ ms) r e have = simp e (
      deliver_all-handed raises (m ∷ ms) 0 (record r { queue = [] })
        (subst (λ q. All (IsOpen r.ports) q) e have))

  close_ports-same :
      (ports : Dict ℕ String) (r : MidiRouter Msg)
      → ((close_ports ports r).effects ≡ r.effects) × ((close_ports ports r).queue ≡ r.queue)
  close_ports-same [] r = (refl, refl)
  close_ports-same ((bus, name) ∷ ports) r = close_ports-same ports _

  close-handed :
      (raises : ℕ → Bool) (r : MidiRouter Msg)
      → All (IsOpen r.ports) r.queue
      → (handed (close raises r).effects ≡ handed r.effects ++ r.queue)
        × ((close raises r).queue ≡ [])
  unfolding close
  close-handed raises r have =
      let flushed = (flush raises r).1 in
      let (effects, queue) = close_ports-same flushed.ports flushed in
      let (here, none_left) = flush-handed raises r.queue r refl have in
      (ap handed effects ∙ here, queue ∙ none_left)

  attempted-handed :
      (raises : Bool) (m : ℕ × Msg) (r : MidiRouter Msg)
      → handed (emit (attempted raises m) r).effects ≡ handed r.effects ++ (m ∷ [])
  attempted-handed true (bus, msg) r = handed-append r.effects (failed bus msg ∷ [])
  attempted-handed false (bus, msg) r = handed-append r.effects (sent bus msg ∷ [])

  appended-IsFlowing :
      (r : MidiRouter Msg) (flight xs : List (ℕ × Msg)) (m : ℕ × Msg)
      → IsOpen r.ports m
      → IsFlowing (record { router = r; in_flight = flight }) xs
      → IsFlowing
          (record { router = record r { queue = r.queue ++ (m ∷ []) }; in_flight = flight })
          (xs ++ (m ∷ []))
  appended-IsFlowing r flight xs m open_now flow = record {
    order =
        ap (λ q. handed r.effects ++ q) (sym (append_assoc flight r.queue (m ∷ [])))
        ∙ sym (append_assoc (handed r.effects) (flight ++ r.queue) (m ∷ []))
        ∙ ap (λ q. q ++ (m ∷ [])) flow.order;
    opened =
        rw (sym (append_assoc flight r.queue (m ∷ [])))
          (All-append (IsOpen r.ports) (flight ++ r.queue) (m ∷ []) flow.opened (open_now, tt));
  }

  closed-IsFlowing :
      (r : MidiRouter Msg) (xs : List (ℕ × Msg)) (raises : ℕ → Bool)
      → IsFlowing (record { router = r; in_flight = [] }) xs
      → IsFlowing (record { router = close raises r; in_flight = [] }) (xs ++ [])
  closed-IsFlowing r xs raises flow =
      let (here, none_left) = close-handed raises r flow.opened in
      record {
        order =
            ap (λ q. handed (close raises r).effects ++ q) none_left
            ∙ append-nil _
            ∙ here
            ∙ flow.order
            ∙ sym (append-nil xs);
        opened = rw none_left tt;
      }

module _ {Msg : Type 0} (mido : Mido Msg) where
  step-IsFlowing :
      (s t : Flow Msg) (xs ys : List (ℕ × Msg)) (one : Step mido s ys t)
      → IsOrderlyStep mido one
      → IsFlowing s xs
      → IsFlowing t (xs ++ ys)
  unfolding take_pending
  step-IsFlowing s t xs ys (note_on_called r r' flight bus ch note vel e) orderly flow =
      fed-IsFlowing r r' flight xs _ (send_note_on-IsFed mido r r' bus ch note vel e) flow
  step-IsFlowing s t xs ys (note_off_called r r' flight bus ch note vel e) orderly flow =
      fed-IsFlowing r r' flight xs _ (send_note_off-IsFed mido r r' bus ch note vel e) flow
  step-IsFlowing s t xs ys (raw_called r r' flight bus payload msg e is) orderly flow =
      fed-IsFlowing r r' flight xs _ (send_raw_midi-IsFed mido r r' bus payload msg e is) flow
  step-IsFlowing s t xs ys (panicked r flight) orderly flow =
      fed-IsFlowing r _ flight xs _ (panic_all_notes_off-IsFed mido r) flow
  step-IsFlowing s t xs ys (taken r) orderly flow = record {
    order = ap (λ q. handed r.effects ++ q) (append-nil r.queue) ∙ flow.order ∙ sym (append-nil xs);
    opened = rw (append-nil r.queue) flow.opened;
  }
  step-IsFlowing s t xs ys (delivered r raises m rest) orderly flow =
      let (here, queue, ports) = deliver-handed raises m r flow.opened.0 in
      record {
        order =
            ap (λ h. h ++ (rest ++ (deliver raises m r).1.queue)) here
            ∙ ap (λ q. handed r.effects ++ (m ∷ []) ++ (rest ++ q)) queue
            ∙ append_assoc (handed r.effects) (m ∷ []) (rest ++ r.queue)
            ∙ flow.order
            ∙ sym (append-nil xs);
        opened = rw (ports, queue) flow.opened.1;
      }
  step-IsFlowing s t xs ys (sent_late r raises m rest) orderly flow = record {
    order =
        ap (λ h. h ++ (rest ++ r.queue)) (attempted-handed raises m r)
        ∙ append_assoc (handed r.effects) (m ∷ []) (rest ++ r.queue)
        ∙ flow.order
        ∙ sym (append-nil xs);
    opened = flow.opened.1;
  }
  step-IsFlowing s t xs ys (appended_late r flight m) orderly flow =
      appended-IsFlowing r flight xs m orderly flow
  step-IsFlowing s t xs ys (closed r [] raises) orderly flow = closed-IsFlowing r xs raises flow
  step-IsFlowing s t xs ys (closed r (m ∷ flight) raises) orderly flow = absurd (cc orderly)

  run-IsFlowing :
      (s t : Flow Msg) (xs ys : List (ℕ × Msg)) (run : Run mido s ys t)
      → IsOrderly mido run
      → IsFlowing s xs
      → IsFlowing t (xs ++ ys)
  run-IsFlowing s t xs ys begun orderly flow = record {
    order = flow.order ∙ sym (append-nil xs);
    opened = flow.opened;
  }
  run-IsFlowing s u xs zs (step {xs = as_far} {ys = more} {t} run one) orderly flow =
      let far =
        step-IsFlowing t u (xs ++ as_far) more one orderly.1
          (run-IsFlowing s t xs as_far run orderly.0 flow) in
      record { order = far.order ∙ append_assoc xs as_far more; opened = far.opened }

  -- Let a router with any open ports have nothing queued and nothing sent. However the calls of its
  -- users, the steps of its flushes, one flush at a time and one message at a time, and its closing
  -- follow on each other, the messages that were taken on buses with a port are, in order and each once:
  -- those handed to their ports, those in flight, and those still queued. The run is to be orderly: the
  -- router is closed only when its thread has ended, with nothing in flight, and a message whose bus was
  -- looked up before still has a port when it is appended.
  pub messages_keep_order :
      (r : MidiRouter Msg) (t : Flow Msg) (xs : List (ℕ × Msg))
      (run : Run mido (record { router = r; in_flight = [] }) xs t)
      → r.queue ≡ []
      → r.effects ≡ []
      → IsOrderly mido run
      → handed t.router.effects ++ (t.in_flight ++ t.router.queue) ≡ xs
  messages_keep_order r t xs run queue effects orderly =
      (run-IsFlowing (record { router = r; in_flight = [] }) t [] xs run orderly
        (record { order = rw (queue, effects) refl; opened = rw queue tt })).order
