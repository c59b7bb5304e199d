-- ===== src/Tests/Router.antt =====
-- A router on a concrete run: the messages of these tests are lists of bytes.
use control_ok_a_v.Base.{ℕ, ◌+◌, ◌≡◌, refl, true, false, List, [], ◌∷◌, ◌++◌, some, ok}
use control_ok_a_v.Base.Int.{pos}
use control_ok_a_v.Midi.Router.{
  Mido, Effect, sent, failed, discarded, close, MidiRouter, send_note_on, send_note_off,
  take_pending, deliver,
}
use control_ok_a_v.Midi.Router.Steps.{
  tried, IsOrderly, sent_late, appended_late, closed, Flow, Run, begun, step, note_on_called,
  note_off_called, taken, delivered, handed,
}
use control_ok_a_v.Midi.Router.Order.{messages_keep_order}
use control_ok_a_v.Midi.Router.Kept.{messages_are_kept}
use mathlib.Core.List.{Perm}

abbrev mido : Mido (List ℕ)
mido = record {
  note_on = λ ch note vel. (0x90 + ch) ∷ (note ∷ (vel ∷ []));
  note_off = λ ch note vel. (0x80 + ch) ∷ (note ∷ (vel ∷ []));
  control_change = λ ch control value. (0xB0 + ch) ∷ (control ∷ (value ∷ []));
  from_bytes = λ bytes. some bytes;
}

abbrev router : List (ℕ × List ℕ) → List (Effect (List ℕ)) → MidiRouter (List ℕ)
router queue effects = record {
  send_noteoff_on_vel0 = true;
  ports = (0, "loopMIDI Port 1") ∷ ((1, "loopMIDI Port 2") ∷ []);
  resolved_outputs = (0, "loopMIDI Port 1") ∷ ((1, "loopMIDI Port 2") ∷ []);
  queue = queue;
  effects = effects;
}

abbrev first : ℕ × List ℕ
first = (0, 0x92 ∷ (60 ∷ (100 ∷ [])))

abbrev second : ℕ × List ℕ
second = (1, 0x82 ∷ (60 ∷ (0 ∷ [])))

first_called :
    send_note_on mido 0 (pos 2) (pos 60) (pos 100) (router [] []) ≡ ok (router (first ∷ []) [])
unfolding send_note_on
first_called = refl

-- It comes while the first is in flight, and a bus without a port is called as well.
second_called :
    send_note_on mido 1 (pos 2) (pos 60) (pos 0) (router [] []) ≡ ok (router (second ∷ []) [])
unfolding send_note_on
second_called = refl

lost_called :
    send_note_off mido 5 (pos 2) (pos 60) (pos 0) (router (second ∷ []) [])
    ≡ ok (router (second ∷ []) (discarded 5 second.1 ∷ []))
unfolding send_note_off
lost_called = refl

abbrev abandoned : List (Effect (List ℕ))
abandoned = discarded 5 second.1 ∷ (failed first.0 first.1 ∷ [])

-- The closing sends what is queued.
abbrev ended : Flow (List ℕ)
ended = record {
  router = record {
    send_noteoff_on_vel0 = true;
    ports = [];
    resolved_outputs = [];
    queue = [];
    effects = abandoned ++ (sent second.0 second.1 ∷ []);
  };
  in_flight = [];
}

steps : Run mido (record { router = router [] []; in_flight = [] }) (first ∷ (second ∷ [])) ended
unfolding take_pending deliver close
steps =
    step
      (step
        (step
          (step
            (step (step begun (note_on_called _ _ [] 0 (pos 2) (pos 60) (pos 100) first_called))
              (taken (router (first ∷ []) [])))
            (note_on_called _ _ (first ∷ []) 1 (pos 2) (pos 60) (pos 0) second_called))
          (note_off_called _ _ (first ∷ []) 5 (pos 2) (pos 60) (pos 0) lost_called))
        (delivered (router (second ∷ []) (discarded 5 second.1 ∷ [])) true first []))
      (closed (router (second ∷ []) abandoned) [] (λ i. false))

steps-IsOrderly : IsOrderly mido steps
unfolding steps
steps-IsOrderly = ((((((tt, tt), tt), tt), tt), tt), refl)

messages_keep_order_example :
    handed ended.router.effects ++ (ended.in_flight ++ ended.router.queue) ≡ first ∷ (second ∷ [])
messages_keep_order_example =
    messages_keep_order mido (router [] []) ended (first ∷ (second ∷ [])) steps refl refl
      steps-IsOrderly

-- What is left where the router is closed while the first message is being sent: the second overtakes it.
abbrev overtaken : Flow (List ℕ)
overtaken = record {
  router = record {
    send_noteoff_on_vel0 = true;
    ports = [];
    resolved_outputs = [];
    queue = [];
    effects = sent second.0 second.1 ∷ (sent first.0 first.1 ∷ []);
  };
  in_flight = [];
}

overtaking :
    Run mido (record { router = router [] []; in_flight = [] }) (first ∷ (second ∷ [])) overtaken
unfolding take_pending close
overtaking =
    step
      (step
        (step
          (step (step begun (appended_late (router [] []) [] first))
            (taken (router (first ∷ []) [])))
          (appended_late (router [] []) (first ∷ []) second))
        (closed (router (second ∷ []) []) (first ∷ []) (λ i. false)))
      (sent_late
        (record {
          send_noteoff_on_vel0 = true;
          ports = [];
          resolved_outputs = [];
          queue = [];
          effects = sent second.0 second.1 ∷ [];
        })
        false first [])

messages_are_kept_example :
    Perm
      (tried overtaken.router.effects ++ (overtaken.in_flight ++ overtaken.router.queue))
      (first ∷ (second ∷ []))
messages_are_kept_example =
    messages_are_kept mido (router [] []) overtaken (first ∷ (second ∷ [])) refl refl overtaking
