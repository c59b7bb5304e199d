-- ===== src/Registry/Tracks.antt =====
-- The counts of one stream against the numbers of its packets (`_update_seq_loss`).
use control_ok_a_v.Base.{
  ℕ, ◌+◌, ◌-◌, ◌%◌, ◌≤◌, ◌<◌, ◌≡◌, refl, Option, none, some, ltb, if◌then◌else◌, Bool-cases, inl,
  inr, arith,
}
use control_ok_a_v.Base.Int.{mask, sub_ℕ}
use control_ok_a_v.Registry.Losses.{SeqLoss, advance}

-- What there is to know of a stream whose packets have numbers that do not wrap around: the number of
-- the first packet, the highest number, and how many packets had a number higher than all before.
pub record Track : Type 0 where
  pub first : ℕ
  pub highest : ℕ
  pub records : ℕ

abbrev pub see : ℕ → Option Track → Track
see q none = record { first = q; highest = q; records = 1 }
see q (some t) = if ltb t.highest q then record t { highest = q; records = t.records + 1 } else t

-- A packet less than 2^15 numbers ahead of the highest, or at most 2^15 behind it.
abbrev pub IsInWindow : ℕ → Option Track → Type 0
IsInWindow q none = Unit
IsInWindow q (some t) = (q < t.highest + 0x8000) × (t.highest ≤ q + 0x8000)

-- The counts of a stream: the last number as it is on the wire, the packets that were seen in order,
-- and all others between the first and the highest as missing.
abbrev pub IsCountOf : Option Track → SeqLoss → Type 0
IsCountOf none c = (c.last_seq ≡ none) × (c.seen_forward ≡ 0) × (c.missing_packets ≡ 0)
IsCountOf (some t) c =
    (c.last_seq ≡ some (t.highest % 0x1_0000))
    × (c.seen_forward ≡ t.records)
    × (c.seen_forward + c.missing_packets + t.first ≡ t.highest + 1)

pub delta_ahead :
    (q h : ℕ) → h ≤ q → q < h + 0x8000 → mask (sub_ℕ (q % 0x1_0000) (h % 0x1_0000)) 0x1_0000 ≡ q - h
delta_ahead q h le lt = ground arith

pub delta_behind :
    (q h : ℕ)
    → q < h
    → h ≤ q + 0x8000
    → mask (sub_ℕ (q % 0x1_0000) (h % 0x1_0000)) 0x1_0000 ≡ q + 0x1_0000 - h
delta_behind q h lt le = ground arith

advance_known :
    (q : ℕ) (t : Track) (c : SeqLoss)
    → IsInWindow q (some t)
    → IsCountOf (some t) c
    → IsCountOf (some (see q (some t))) (advance q c)
unfolding advance
advance_known q t c (near, far) (last, seen, total) = elim (Bool-cases (ltb t.highest q)) [
  | inl e ↦
      let d = delta_ahead q t.highest (ground arith) near in rw last (simp (e, d) (ground arith))
  | inr e ↦ elim (Bool-cases (ltb q t.highest)) [
    | inl f ↦
        let d = delta_behind q t.highest (ground arith) far in rw last (simp (e, d) (ground arith))
    | inr f ↦
        let d = delta_ahead q t.highest (ground arith) near in rw last (simp (e, d) (ground arith))
  ]
]

-- A packet in the window of the track leaves the counts those of the longer track.
pub advance-IsCountOf :
    (q : ℕ) (t : Option Track) (c : SeqLoss)
    → IsInWindow q t
    → IsCountOf t c
    → IsCountOf (some (see q t)) (advance q c)
unfolding advance
advance-IsCountOf q none c window (last, seen, missing) = rw last (refl, omega arith, omega arith)
advance-IsCountOf q (some t) c window count = advance_known q t c window count

pub advance-mod : (q : ℕ) (c : SeqLoss) → advance (q % 0x1_0000) c ≡ advance q c
unfolding advance
advance-mod q c = let e : q % 0x1_0000 % 0x1_0000 ≡ q % 0x1_0000 = omega arith in rw e refl
