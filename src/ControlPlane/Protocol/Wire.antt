-- ===== src/ControlPlane/Protocol/Wire.antt =====
-- What an accepted command looks like on the wire, and which commands are accepted
-- (core/control_plane/protocol.py).
use control_ok_a_v.Base.{
  length-take, All-take, ◌↔◌, if◌then◌else◌, ℕ, suc, ◌+◌, ◌^◌, ◌<◌, ◌≡◌, ◌≢◌, refl, ◌==◌, Bool,
  true, false, [], ◌∷◌, length, take, All, ok, arith,
}
use control_ok_a_v.Base.Int.{ℤ, pos, negsuc, pos_part, ◌≤ℤ◌}
use control_ok_a_v.Base.Bytes.{Bytes, IsByte, from_le, field, from_le-to_le, from_le-lt}
use control_ok_a_v.ControlPlane.Auth.{strip, is_empty, IsDigest}
use control_ok_a_v.ControlPlane.Protocol.Build.{build_okua_cmd_bytes, build_cmd_flags, pack_cmd}

-- The arguments that are accepted: every number in the range of its field, the broadcast flag just
-- for target 0, and a secret that is not blank.
pub record IsAccepted (secret : Bytes) (node_id_target cmd_seq cmd_id nonce arg0 arg1 : ℤ)
    (broadcast_intent : Bool) : Type 0 where
  pub target : (pos 0 ≤ℤ node_id_target) × (node_id_target ≤ℤ pos 0xFFFF)
  pub sequence : (pos 0 ≤ℤ cmd_seq) × (cmd_seq ≤ℤ pos 0xFFFF)
  pub command : (pos 0 ≤ℤ cmd_id) × (cmd_id ≤ℤ pos 0xFF)
  pub number : (pos 0 ≤ℤ nonce) × (nonce ≤ℤ pos 0xFFFF_FFFF_FFFF_FFFF)
  pub first : (pos 0 ≤ℤ arg0) × (arg0 ≤ℤ pos 0xFFFF)
  pub second : (pos 0 ≤ℤ arg1) × (arg1 ≤ℤ pos 0xFFFF)
  pub broadcast : broadcast_intent ≡ (pos_part node_id_target == 0)
  pub key : strip secret ≢ []

-- The layout of an OKUA_CMD packet, offset by offset.
pub record IsCmdPacket (packet : Bytes)
    (node_id cmd_seq cmd_id cmd_flags arg0 arg1 nonce auth_tag32 : ℕ) : Type 0 where
  pub size : length packet ≡ 28
  pub bytes : All IsByte packet
  pub magic : field packet 0 2 ≡ 0x4B4F
  pub version : field packet 2 1 ≡ 1
  pub kind : field packet 3 1 ≡ 3
  pub target : field packet 4 2 ≡ node_id
  pub sequence : field packet 6 2 ≡ cmd_seq
  pub command : field packet 8 1 ≡ cmd_id
  pub flags : field packet 9 1 ≡ cmd_flags
  pub first : field packet 10 2 ≡ arg0
  pub second : field packet 12 2 ≡ arg1
  pub number : field packet 14 8 ≡ nonce
  pub reserved : field packet 22 2 ≡ 0
  pub tag : field packet 24 4 ≡ auth_tag32

pub pack_cmd-IsCmdPacket :
    (node seq id flags arg0 arg1 nonce tag : ℕ)
    → node < 2 ^ 16
    → seq < 2 ^ 16
    → id < 2 ^ 8
    → flags < 2 ^ 8
    → arg0 < 2 ^ 16
    → arg1 < 2 ^ 16
    → nonce < 2 ^ 64
    → tag < 2 ^ 32
    → IsCmdPacket
        (pack_cmd node seq id flags arg0 arg1 nonce tag)
        node
        seq
        id
        flags
        arg0
        arg1
        nonce
        tag
pack_cmd-IsCmdPacket node seq id flags arg0 arg1 nonce tag h1 h2 h3 h4 h5 h6 h7 h8 = record {
  size = refl;
  bytes = omega arith;
  magic = refl;
  version = refl;
  kind = refl;
  target = from_le-to_le 2 node h1;
  sequence = from_le-to_le 2 seq h2;
  command = from_le-to_le 1 id h3;
  flags = from_le-to_le 1 flags h4;
  first = from_le-to_le 2 arg0 h5;
  second = from_le-to_le 2 arg1 h6;
  number = from_le-to_le 8 nonce h7;
  reserved = refl;
  tag = from_le-to_le 4 tag h8;
}

is_empty-eq_false : (bs : Bytes) → is_empty bs ≡ false → bs ≢ []
is_empty-eq_false [] h e = cc
is_empty-eq_false (b ∷ bs) h e = cc

-- A number read from four bytes of a digest.
pub digest_word-lt : (d : Bytes) → length d ≡ 32 → All IsByte d → from_le (take 4 d) < 2 ^ 32
digest_word-lt d size bytes =
    let four : length (take 4 d) ≡ 4 = omega (arith, length-take 4 d) in
    rw four at (from_le-lt (take 4 d) (All-take IsByte 4 d bytes))

-- The flags byte as a sum.
abbrev pub flag_sum : Bool → Bool → ℕ
flag_sum is_retry broadcast_intent =
    1 + (if is_retry then 2 else 0) + (if broadcast_intent then 4 else 0)

pub build_cmd_flags-eq : (r b : Bool) → build_cmd_flags r b ≡ flag_sum r b
unfolding build_cmd_flags
build_cmd_flags-eq true true = refl
build_cmd_flags-eq true false = refl
build_cmd_flags-eq false true = refl
build_cmd_flags-eq false false = refl

ne_nil→is_empty : (bs : Bytes) → bs ≢ [] → is_empty bs ≡ false
ne_nil→is_empty [] h = absurd (h refl)
ne_nil→is_empty (b ∷ bs) h = refl

pub build_cmd_flags-lt : (r b : Bool) → build_cmd_flags r b < 2 ^ 8
build_cmd_flags-lt r b = rw build_cmd_flags-eq (ground arith)

pos_part-lt : (v : ℤ) (n : ℕ) → (pos 0 ≤ℤ v) × (v ≤ℤ pos n) → pos_part v < suc n
pos_part-lt (pos k) n h = omega arith
pos_part-lt (negsuc k) n h = omega arith

module _ (hmac : Bytes → Bytes → Bytes) (secret : Bytes) where
  -- The tag of a packet that is built, from its first 24 bytes.
  abbrev pub tag_of : Bytes → ℕ
  tag_of packet = from_le (take 4 (hmac (strip secret) (take 24 packet)))

  module _ (node seq id nonce arg0 arg1 : ℤ) (r b : Bool) where
    -- The packet of accepted arguments, before and after the tag is put in.
    abbrev pub packet_with : ℕ → Bytes
    packet_with =
        pack_cmd (pos_part node) (pos_part seq) (pos_part id) (build_cmd_flags r b) (pos_part arg0)
          (pos_part arg1) (pos_part nonce)

    build-inv :
        (p : Bytes)
        → build_okua_cmd_bytes hmac secret node seq id nonce arg0 arg1 r b ≡ ok p
        → IsAccepted secret node seq id nonce arg0 arg1 b
          × (p ≡ packet_with (tag_of (packet_with 0)))
    unfolding build_okua_cmd_bytes
    build-inv p h = (ground (arith, is_empty-eq_false (strip secret)), ground arith)

    build-accepts :
        IsAccepted secret node seq id nonce arg0 arg1 b
        → build_okua_cmd_bytes hmac secret node seq id nonce arg0 arg1 r b
          ≡ ok (packet_with (tag_of (packet_with 0)))
    unfolding build_okua_cmd_bytes
    build-accepts a = ground (arith, ne_nil→is_empty (strip secret) a.key)

    -- A command is built exactly when its arguments are accepted.
    pub build_okua_cmd_bytes_iff :
        IsAccepted secret node seq id nonce arg0 arg1 b
        ↔ ((p : Bytes) × (build_okua_cmd_bytes hmac secret node seq id nonce arg0 arg1 r b ≡ ok p))
    build_okua_cmd_bytes_iff = (λ a. (_, build-accepts a), λ q. (build-inv q.0 q.1).0)

    -- A packet that is built has 28 bytes, carries each argument at its offset in little-endian
    -- order, and ends in the tag of its first 24 bytes.
    pub build_okua_cmd_bytes-IsCmdPacket :
        IsDigest hmac
        → (p : Bytes) → build_okua_cmd_bytes hmac secret node seq id nonce arg0 arg1 r b ≡ ok p
        → IsCmdPacket p
            (pos_part node)
            (pos_part seq)
            (pos_part id)
            (flag_sum r b)
            (pos_part arg0)
            (pos_part arg1)
            (pos_part nonce)
            (tag_of p)
    build_okua_cmd_bytes-IsCmdPacket digest p h =
        let (a, e) = build-inv p h in
        let d = digest (strip secret) (take 24 (packet_with 0)) in
        rw e (
          rw (← build_cmd_flags-eq r b) (
            pack_cmd-IsCmdPacket (pos_part node) (pos_part seq) (pos_part id) (build_cmd_flags r b)
              (pos_part arg0) (pos_part arg1) (pos_part nonce) (tag_of (packet_with 0))
              (pos_part-lt node 0xFFFF a.target) (pos_part-lt seq 0xFFFF a.sequence)
              (pos_part-lt id 0xFF a.command) (build_cmd_flags-lt r b)
              (pos_part-lt arg0 0xFFFF a.first) (pos_part-lt arg1 0xFFFF a.second)
              (pos_part-lt nonce 0xFFFF_FFFF_FFFF_FFFF a.number) (digest_word-lt _ d.0 d.1)))
