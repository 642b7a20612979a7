-- ===== src/AirPlay/Bootstrap.antt =====
-- transports/airplay/airplay2_session.h and airplay2_session.cpp
use foobar_universal_multiro.Base.Throws.{fail_if}
use foobar_universal_multiro.Base.Outcome.{Outcome, runtime_error, invalid_argument}
use foobar_universal_multiro.Device.{OutputDevice}
use foobar_universal_multiro.Base.{Bool, Text, codes, false, is_empty, not, ℕ, ◌++◌, ◌==◌, ◌||◌}
use foobar_universal_multiro.Base.Throws as Throws

pub record AirPlay2SessionRequirements : Type 0 where
  pub output_id : Text
  pub endpoint_host : Text
  pub endpoint_port : ℕ
  pub pair_verify_required : Bool
  pub encrypted_media_required : Bool
  pub ptp_clock_required : Bool

pub requirements_for : OutputDevice → AirPlay2SessionRequirements
requirements_for output = record {
  output_id = output.id;
  endpoint_host = output.endpoint_host;
  endpoint_port = output.endpoint_port;
  pair_verify_required =
      output.requires_auth || output.needs_auth_key || output.requires_encrypted_stream;
  encrypted_media_required = output.requires_encrypted_stream;
  ptp_clock_required = false;
}

unfoldable pub validate_mvp_ready : OutputDevice → Outcome (Unit {0})
validate_mvp_ready output =
    Throws.◌>>◌
      (fail_if (not output.supports_airplay2) runtime_error
        (codes "AirPlay 2 is required for the multiroom MVP: " ++ output.id))
      (fail_if (is_empty output.endpoint_host || output.endpoint_port == 0) invalid_argument
        (codes "AirPlay 2 output has no stream endpoint: " ++ output.id))
