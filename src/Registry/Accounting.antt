-- ===== src/Registry/Accounting.antt =====
-- The counts of a stream of packets, against the numbers that a node gives to its packets
-- (`_update_seq_loss` of core/registry/node_registry.py).
use Prim.Derive.{subst}
use control_ok_a_v.Base.{
  ℕ, ◌%◌, ◌≡◌, refl, List, [], ◌∷◌, ap, sym, ◌∙◌, ◌==◌, Option, none, some, if◌then◌else◌,
  Bool-cases, inl, inr, arith,
}
use control_ok_a_v.Registry.Float.{FloatOps}
use control_ok_a_v.Registry.Models.{NodeRegistryConfig}
use control_ok_a_v.Registry.Losses.{SeqLoss, advance, loss_pct}
use control_ok_a_v.Registry.Nodes.{NodeRegistry, init, get_or_create_node}
use control_ok_a_v.Registry.Frames.{Core}
use control_ok_a_v.Registry.Calls.{
  Call, evt_observed, stat_observed, snapshot_asked, snapshots_asked, summary_asked, recomputed,
  cleared, play, view, after_call, view-play,
}
use control_ok_a_v.Registry.Tracks.{
  Track, see, IsInWindow, IsCountOf, advance-IsCountOf, advance-mod,
}

-- The two streams of a node.
pub record Tracks : Type 0 where
  pub evt_track : Option Track
  pub stat_track : Option Track

module _ {F : Type 0} where
  -- What a call adds to the tracks of node `k`, where a packet has the number `q` that does not wrap.
  abbrev pub follow : ℕ → ℕ → Call F → Tracks → Tracks
  follow k q (evt_observed packet received_at clock) t =
      if packet.header.node_id == k then record t { evt_track = some (see q t.evt_track) } else t
  follow k q (stat_observed packet received_at clock) t =
      if packet.header.node_id == k then record t { stat_track = some (see q t.stat_track) } else t
  follow k q cleared t = record { evt_track = none; stat_track = none }
  follow k q _ t = t

  -- A packet of node `k` carries the low 16 bits of its number, which is in the window of the track.
  abbrev pub IsNumbered : ℕ → ℕ → Call F → Tracks → Type 0
  IsNumbered k q (evt_observed packet received_at clock) t =
      packet.header.node_id ≡ k → (packet.header.seq ≡ q % 0x1_0000) × IsInWindow q t.evt_track
  IsNumbered k q (stat_observed packet received_at clock) t =
      packet.header.node_id ≡ k → (packet.header.seq ≡ q % 0x1_0000) × IsInWindow q t.stat_track
  IsNumbered k q _ t = Unit

  -- Calls, each with the number of its packet, from the tracks so far.
  abbrev pub AreNumbered : ℕ → List (ℕ × Call F) → Tracks → Type 0
  AreNumbered k [] t = Unit
  AreNumbered k ((q, c) ∷ calls) t = IsNumbered k q c t × AreNumbered k calls (follow k q c t)

  abbrev pub follow_all : ℕ → List (ℕ × Call F) → Tracks → Tracks
  follow_all k [] t = t
  follow_all k ((q, c) ∷ calls) t = follow_all k calls (follow k q c t)

module _ {F : Type 0} (ops : FloatOps F) where
  abbrev pub play_all : List (ℕ × Call F) → NodeRegistry F → NodeRegistry F
  play_all [] r = r
  play_all ((q, c) ∷ calls) r = play_all calls (play ops c r)

  -- The counts of both streams are those of the tracks, and the percentages those of the counts.
  abbrev pub IsAccount : Tracks → Core F → Type 0
  IsAccount t v =
      IsCountOf t.evt_track v.evt_counts
      × IsCountOf t.stat_track v.stat_counts
      × (v.evt_pct ≡ loss_pct ops v.evt_counts)
      × (v.stat_pct ≡ loss_pct ops v.stat_counts)

  counted :
      (seq q : ℕ) (t : Option Track) (c : SeqLoss)
      → seq ≡ q % 0x1_0000
      → IsInWindow q t
      → IsCountOf t c
      → IsCountOf (some (see q t)) (advance seq c)
  counted seq q t c e window h =
      let same : advance seq c ≡ advance q c = ap (λ s. advance s c) e ∙ advance-mod q c in
      rw same (advance-IsCountOf q t c window h)

  after_call-IsAccount :
      (k q : ℕ) (c : Call F) (t : Tracks) (v : Core F)
      → IsNumbered k q c t
      → IsAccount t v
      → IsAccount (follow k q c t) (after_call ops k c v)
  after_call-IsAccount k q (evt_observed packet received_at clock) t v num (evt, stat, p, p') =
      elim (Bool-cases (packet.header.node_id == k)) [
        | inl e ↦
            let (same, window) = num (ground arith) in
            simp e
              (counted packet.header.seq q t.evt_track v.evt_counts same window evt, stat, refl, p')
        | inr e ↦ simp e (evt, stat, p, p')
      ]
  after_call-IsAccount k q (stat_observed packet received_at clock) t v num (evt, stat, p, p') =
      elim (Bool-cases (packet.header.node_id == k)) [
        | inl e ↦
            let (same, window) = num (ground arith) in
            simp e (
              evt,
              counted packet.header.seq q t.stat_track v.stat_counts same window stat,
              p,
              refl,
            )
        | inr e ↦ simp e (evt, stat, p, p')
      ]
  after_call-IsAccount k q (snapshot_asked j now clock) t v num h = h
  after_call-IsAccount k q (snapshots_asked now clock) t v num h = h
  after_call-IsAccount k q (summary_asked now clock) t v num h = h
  after_call-IsAccount k q (recomputed now clock) t v num h = h
  after_call-IsAccount k q cleared t v num h = ((refl, refl, refl), (refl, refl, refl), refl, refl)

  play_all-IsAccount :
      (k : ℕ) (calls : List (ℕ × Call F)) (t : Tracks) (r : NodeRegistry F)
      → AreNumbered k calls t
      → IsAccount t (view ops k r)
      → IsAccount (follow_all k calls t) (view ops k (play_all calls r))
  play_all-IsAccount k [] t r num h = h
  play_all-IsAccount k ((q, c) ∷ calls) t r (n, num) h =
      play_all-IsAccount k calls (follow k q c t) (play ops c r) num (
        subst (λ v. IsAccount (follow k q c t) v) (sym (view-play ops k c r))
          (after_call-IsAccount k q c t (view ops k r) n h))

  -- Whatever calls come to a new registry, with packets of any nodes, if the packets of node `k` carry
  -- the low 16 bits of numbers, each less than 2^15 ahead of the highest of its stream so far and at
  -- most 2^15 behind it, then for both streams of the node the last number is that of the highest, the
  -- packets seen in order are those that raised it, these and the missing ones are all numbers from the
  -- first to the highest, and the percentage of losses is theirs.
  pub losses_are_counted :
      (config : NodeRegistryConfig F) (k : ℕ) (calls : List (ℕ × Call F))
      → AreNumbered k calls (record { evt_track = none; stat_track = none })
      → IsAccount
          (follow_all k calls (record { evt_track = none; stat_track = none }))
          (view ops k (play_all calls (init ops config)))
  unfolding get_or_create_node
  losses_are_counted config k calls num =
      play_all-IsAccount k calls _ (init ops config) num
        ((refl, refl, refl), (refl, refl, refl), refl, refl)
