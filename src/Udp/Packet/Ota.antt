-- ===== src/Udp/Packet/Ota.antt =====
-- The three reserved bytes of OKUA_STAT: the state of an update over the air
-- (core/udp/ota_runtime.py).
use control_ok_a_v.Base.{ℕ, ◌/◌, ◌%◌, Bool, List, [], ◌∷◌, ◌==◌, if◌then◌else◌, Result, ok, err}
use control_ok_a_v.Base.Int.{ℤ, mask}

pub data StateKey : Type 0 where
  idle triggered fetching_manifest validating_manifest downloading ready_reboot : StateKey
  boot_validating boot_confirmed error unknown : StateKey

pub data ErrorKey : Type 0 where
  no_error invalid_trigger manifest_http manifest_parse manifest_incompatible : ErrorKey
  version_rejected already_current download_http download_size download_hash ota_begin : ErrorKey
  ota_write ota_finalize boot_wifi_timeout boot_stat_timeout boot_identity_mismatch : ErrorKey
  boot_validate nvs_error unknown_error : ErrorKey

pub record OkuaOtaRuntimeInfo : Type 0 where
  pub state_code : ℕ
  pub error_code : ℕ
  pub flags : ℕ
  pub state_key : StateKey
  pub error_key : ErrorKey
  pub check_pending : Bool
  pub pending_reboot : Bool
  pub pending_verify : Bool
  pub health_confirmed : Bool

-- The `ValueError` for a sequence that does not have three elements.
pub data RsvError : Type 0 where
  bad_rsv_length : RsvError

unfoldable pub state_key_for_code : ℕ → StateKey
state_key_for_code code =
    if code == 0
    then idle
    else if code == 1
    then triggered
    else if code == 2
    then fetching_manifest
    else if code == 3
    then validating_manifest
    else if code == 4
    then downloading
    else if code == 5
    then ready_reboot
    else if code == 6
    then boot_validating
    else if code == 7
    then boot_confirmed
    else if code == 255
    then error
    else unknown

unfoldable pub error_key_for_code : ℕ → ErrorKey
error_key_for_code code =
    if code == 0
    then no_error
    else if code == 1
    then invalid_trigger
    else if code == 2
    then manifest_http
    else if code == 3
    then manifest_parse
    else if code == 4
    then manifest_incompatible
    else if code == 5
    then version_rejected
    else if code == 6
    then already_current
    else if code == 7
    then download_http
    else if code == 8
    then download_size
    else if code == 9
    then download_hash
    else if code == 10
    then ota_begin
    else if code == 11
    then ota_write
    else if code == 12
    then ota_finalize
    else if code == 13
    then boot_wifi_timeout
    else if code == 14
    then boot_stat_timeout
    else if code == 15
    then boot_identity_mismatch
    else if code == 16
    then boot_validate
    else if code == 17
    then nvs_error
    else unknown_error

-- `bool(flags & 2 ** k)`, by `2 ** k`
abbrev pub has_flag : ℕ → ℕ → Bool
has_flag flags weight = flags / weight % 2 == 1

unfoldable pub decode_okua_ota_runtime : List ℤ → Result RsvError OkuaOtaRuntimeInfo
unfolding state_key_for_code error_key_for_code
decode_okua_ota_runtime (a ∷ (b ∷ (c ∷ []))) = ok (record {
  state_code = mask a 256;
  error_code = mask b 256;
  flags = mask c 256;
  state_key = state_key_for_code (mask a 256);
  error_key = error_key_for_code (mask b 256);
  check_pending = has_flag (mask c 256) 1;
  pending_reboot = has_flag (mask c 256) 2;
  pending_verify = has_flag (mask c 256) 4;
  health_confirmed = has_flag (mask c 256) 8;
})
decode_okua_ota_runtime _ = err bad_rsv_length
