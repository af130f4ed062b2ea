-- ===== src/Translation/Ahead.antt =====
-- pkg/sfu/forwarder.go, processSourceSwitch: the timestamps go forward.
use voicekit.Prelude.{
  ℕ, ◌+◌, ◌<◌, ◌^◌, Bool, true, none, some, ◌≡◌, sym, ap, ◌∙◌, arith, add64, sub64, u64_mod,
}
use mathlib.Core.Path.{subst}
use voicekit.Prelude.Int.{ℤ, pos, ltb_ℤ}
use voicekit.RangeMap.{half_range}
use voicekit.RtpMunger.{RtpMunger, ExtPacket, update_sn_ts_offsets, update_and_get_sn_ts}
use voicekit.RtpMunger.InOrder.{IsReady}
use voicekit.RtpMunger.Padding.{update_sn_ts_offsets-follows}
use voicekit.Translation.{Packet, Parts, Translator}
use voicekit.Translation.Packets.{process_source_switch}
use voicekit.Translation.Contiguous.{IsRunning}
use voicekit.Translation.Switch.{IsSwitched, process_source_switch-IsSwitched}

-- The munger `m` sends the packet with the number after that of `before` and with a later timestamp.
abbrev pub GoesOn : RtpMunger → RtpMunger → ExtPacket → Bool → Type 0
GoesOn before m pkt marker =
    let (m', params, error) = update_and_get_sn_ts m pkt marker in
    (error ≡ none)
    × (params.ext_sequence_number ≡ add64 before.ext_last_sn 1)
    × (0 < sub64 params.ext_timestamp before.ext_last_ts)
    × (sub64 params.ext_timestamp before.ext_last_ts < 2 ^ 63)
    × IsReady m'

adjusted-GoesOn :
    (m : RtpMunger) (pkt : ExtPacket) (a : ℕ) (marker : Bool)
    → IsReady m
    → m.ext_last_ts < u64_mod
    → pkt.ext_timestamp < u64_mod
    → 0 < a
    → a < 2 ^ 63
    → 0 < pkt.ext_sequence_number
    → pkt.ext_sequence_number + 1 < half_range
    → 0 < pkt.payload_size
    → GoesOn m (update_sn_ts_offsets m pkt 1 a) pkt marker
adjusted-GoesOn m pkt a marker r word ts up down positive room payload =
    let last = r.aligned in
    let (no_error, sn, time, ready) =
      update_sn_ts_offsets-follows m pkt 1 a marker r.valid (omega arith) word ts (omega arith)
        (omega arith) positive room payload in
    let moved : sub64 (add64 m.ext_last_ts a) m.ext_last_ts ≡ a = omega arith in
    (no_error, sn, rw (time, moved) up, rw (time, moved) down, ready)

some_same : {A : Type 0} (a b : A) → some a ≡ some b → a ≡ b
some_same a b e = cc

switched-GoesOn :
    (P : Parts) (t u : Translator P) (pkt : Packet) (marker : Bool) (out : Translator P × Bool)
    → IsSwitched P t pkt out
    → out ≡ (u, true)
    → IsRunning P t
    → t.munger.ext_last_ts < u64_mod
    → pkt.rtp.ext_timestamp < u64_mod
    → 0 < pkt.rtp.ext_sequence_number
    → pkt.rtp.ext_sequence_number + 1 < half_range
    → 0 < pkt.rtp.payload_size
    → GoesOn t.munger u.munger pkt.rtp marker
switched-GoesOn P t u pkt marker out s same r word ts positive room payload =
    let (a, up, down, munger) = s.moved (ap (λ o. o.1) same) word in
    subst (λ m. GoesOn t.munger m pkt.rtp marker) (sym munger ∙ ap (λ o. o.0.munger) same)
      (adjusted-GoesOn t.munger pkt.rtp a marker r.ready word ts up down positive room payload)

-- A forwarder has started, its munger is ready and its reference layer is below 3; its last timestamp
-- is below 2 ^ 64. A packet has a payload, a spatial layer below 3, a timestamp below 2 ^ 64 and a
-- number over 0 and far from the end of 64 bits. Where processSourceSwitch switches to the stream of
-- that packet, whatever the reports, the clocks and the comparisons of floats answer, the munger gives
-- that packet the number after the last one, and a timestamp ahead of the last one by less than 2 ^ 63.
pub process_source_switch-GoesOn :
    (P : Parts) (t u : Translator P) (pkt : Packet) (layer : ℤ) (marker : Bool)
    → IsRunning P t
    → t.munger.ext_last_ts < u64_mod
    → pkt.rtp.ext_timestamp < u64_mod
    → 0 < pkt.rtp.ext_sequence_number
    → pkt.rtp.ext_sequence_number + 1 < half_range
    → 0 < pkt.rtp.payload_size
    → ltb_ℤ layer (pos 3) ≡ true
    → process_source_switch P t pkt layer ≡ some (u, true)
    → GoesOn t.munger u.munger pkt.rtp marker
process_source_switch-GoesOn P t u pkt layer marker r word ts positive room payload layered h =
    let (out, e, s) = process_source_switch-IsSwitched P t pkt layer r positive room layered in
    switched-GoesOn P t u pkt marker out s (some_same out (u, true) (sym e ∙ h)) r word ts positive
      room payload
