-- ===== src/Translation.antt =====
-- pkg/sfu/forwarder.go: how a forwarder translates the packets of a track for its subscriber. It selects
-- packets with its layer selector, gives them outgoing numbers with its RTP munger and lets the codec
-- munger rewrite their headers. Logging has no effect on the state and is left out.
pub mod Timestamp
pub mod Packets
pub mod Contiguous
pub mod Switch
pub mod Run
pub mod Padding
pub mod Others
pub mod Goes
pub mod Events
pub mod Ahead
pub mod Sent
mod Examples
use voicekit.Prelude.{ℕ, Bool, Option, List}
use voicekit.Prelude.Int.{ℤ}
use voicekit.Forwarder.{State}
use voicekit.LayerSelector.{Base, SelectResult}
use voicekit.RtpMunger.{RtpMunger}
use voicekit.Vp8Munger.{Outcome}

-- Of float64, the values that are compared: a difference of timestamps, an int64 in two's complement,
-- over the clock rate, and a number of milliseconds, in seconds.
pub record Float64 : Type 1 where
  pub Value : Type 0
  pub seconds : ℕ → ℕ → Value
  pub of_millis : ℕ → Value
  pub abs : Value → Value
  pub less : Value → Value → Bool
  pub at_least : Value → Value → Bool

pub record SenderReport : Type 0 where
  pub ntp_timestamp : ℕ
  pub rtp_timestamp : ℕ

-- A packet, as each part reads it. `expected_ts` is what the statistics of the stream answer at its
-- time, where there are any, and may be an error; `since_start` is the time in nanoseconds since
-- forwarding was started without a packet.
pub record Packet : Type 0 where
  pub rtp : voicekit.RtpMunger.ExtPacket
  pub media : voicekit.LayerSelector.ExtPacket
  pub codec : voicekit.Vp8Munger.ExtPacket
  pub ssrc : ℕ
  pub payload_type : ℕ
  pub timestamp : ℕ
  pub expected_ts : Option (Option ℕ)
  pub since_start : ℕ

-- The interfaces that a forwarder calls: a codec munger, the method Select of its layer selector, and
-- the difference of two NTP times in nanoseconds, an int64 in two's complement.
pub record Parts : Type 1 where
  pub Codec : Type 0
  pub set_last : Codec → Packet → Codec
  pub update_offsets : Codec → Packet → Codec
  pub update_and_get : Codec → Packet → Bool → Bool → ℤ → Codec × Outcome
  pub update_and_get_padding : Codec → Bool → Codec × Option (List ℕ)
  pub select : Base → Packet → ℤ → Base × SelectResult
  pub ntp_difference : ℕ → ℕ → ℕ
  pub float : Float64

-- The fields of a forwarder that translate packets, beside those that allocate its layers; of
-- `last_payload_type`, none is the -1 from before the first packet.
pub record Translator (P : Parts) : Type 0 where
  pub state : State
  pub clock_rate : ℕ
  pub skip_reference_ts : Bool
  pub started : Bool
  pub is_pre_started : Bool
  pub ext_first_ts : ℕ
  pub last_payload_type : Option ℕ
  pub last_switch_ts : ℕ
  pub reference_layer_spatial : ℤ
  pub dummy_start_ts_offset : ℕ
  pub ref_infos : List (Option SenderReport)
  pub ref_is_svc : Bool
  pub munger : RtpMunger
  pub codec : P.Codec
