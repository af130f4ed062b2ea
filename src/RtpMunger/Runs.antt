-- ===== src/RtpMunger/Runs.antt =====
-- pkg/sfu/rtpmunger.go: the outgoing numbers of a whole run of contiguous packets.
use mathlib.Core.Path.{subst, ap₂}
use native.Mathlib.Decide.{dec_lt}
use voicekit.Prelude.{
  ℕ, zero, suc, ◌+◌, ◌<◌, ◌≡◌, refl, ap, sym, ◌∙◌, eq→==, ne→==, Bool, true, false, none, some,
  arith, add64, List, [], ◌∷◌, ◌==◌, if◌then◌else◌, length, not, ◌&&◌, inl,
}
use voicekit.RangeMap.{half_range}
use voicekit.RtpMunger.{ExtPacket, RtpMunger, Error, packet_dropped, update_and_get_sn_ts}
use voicekit.RtpMunger.InOrder.{
  IsReady, update_and_get_sn_ts_in_order, update_and_get_sn_ts_padding, packet_dropped-IsReady,
}

-- The outgoing numbers of the packets that are sent. A packet beside `true` is translated and then
-- dropped, as the down track does with a packet that its codec munger filters.
unfoldable pub translate_all : RtpMunger → List (ExtPacket × Bool) → List ℕ
translate_all m [] = []
translate_all m ((pkt, drop) ∷ pkts) =
    let (m', params, error) = update_and_get_sn_ts m pkt false in
    elim error [
      | some e ↦ translate_all m' pkts
      | none ↦
          if drop
          then translate_all (packet_dropped m' pkt) pkts
          else params.ext_sequence_number ∷ translate_all m' pkts
    ]

abbrev pub IsContiguous : ℕ → List (ExtPacket × Bool) → Type 0
IsContiguous h [] = Unit {0}
IsContiguous h ((pkt, drop) ∷ pkts) = (pkt.ext_sequence_number ≡ h + 1) × IsContiguous (h + 1) pkts

-- The packets with a payload that are not dropped.
abbrev pub count_sent : List (ExtPacket × Bool) → ℕ
count_sent [] = 0
count_sent ((pkt, drop) ∷ pkts) =
    if not (pkt.payload_size == 0) && not drop then suc (count_sent pkts) else count_sent pkts

-- The `n` numbers after `last`.
abbrev pub numbers_after : ℕ → ℕ → List ℕ
numbers_after last zero = []
numbers_after last (suc n) = add64 last 1 ∷ numbers_after (add64 last 1) n

module _ (m : RtpMunger) (pkt : ExtPacket) (pkts : List (ExtPacket × Bool)) where
  translate_all-sent :
      (update_and_get_sn_ts m pkt false).2 ≡ none
      → translate_all m ((pkt, false) ∷ pkts)
        ≡ (update_and_get_sn_ts m pkt false).1.ext_sequence_number
          ∷ translate_all (update_and_get_sn_ts m pkt false).0 pkts
  unfolding translate_all
  translate_all-sent e = rw (e, translate_all)

  translate_all-dropped :
      (update_and_get_sn_ts m pkt false).2 ≡ none
      → translate_all m ((pkt, true) ∷ pkts)
        ≡ translate_all (packet_dropped (update_and_get_sn_ts m pkt false).0 pkt) pkts
  unfolding translate_all
  translate_all-dropped e = rw (e, translate_all)

  translate_all-refused :
      (drop : Bool) (error : Error)
      → (update_and_get_sn_ts m pkt false).2 ≡ some error
      → translate_all m ((pkt, drop) ∷ pkts)
        ≡ translate_all (update_and_get_sn_ts m pkt false).0 pkts
  unfolding translate_all
  translate_all-refused drop error e = rw (e, translate_all)

-- The munger after the next packet was translated and then dropped.
pub dropped-IsReady :
    (m : RtpMunger) (pkt : ExtPacket) (marker : Bool)
    → IsReady m
    → pkt.ext_sequence_number ≡ m.ext_highest_incoming_sn + 1
    → pkt.ext_sequence_number + 1 < half_range
    → 0 < pkt.payload_size
    → let m' = packet_dropped (update_and_get_sn_ts m pkt marker).0 pkt in
      (m'.ext_last_sn ≡ m.ext_last_sn)
      × (m'.ext_highest_incoming_sn ≡ pkt.ext_sequence_number)
      × IsReady m'
dropped-IsReady m pkt marker v c room payload =
    let (no_error, sn, _, last, second, highest, same, v') =
      update_and_get_sn_ts_in_order m pkt marker v (omega arith) room (inl payload) in
    let next : add64 m.ext_last_sn 1 ≡ (update_and_get_sn_ts m pkt marker).1.ext_sequence_number =
      ap (λ d. add64 m.ext_last_sn d) (omega arith) ∙ sym sn in
    let (dropped_last, dropped_highest, dropped_v) =
      packet_dropped-IsReady (update_and_get_sn_ts m pkt marker).0 pkt v' highest
        (rw (same, highest) (omega (arith, v.open_start))) (rw (second, last) next)
        (rw second (omega (arith, v.aligned))) in
    (dropped_last ∙ second, dropped_highest, dropped_v)

-- Of contiguous packets, those that are sent get contiguous outgoing numbers from the last one on,
-- whichever packets between them are padding only or are dropped.
pub translate_all_contiguous :
    (pkts : List (ExtPacket × Bool)) (m : RtpMunger)
    → IsReady m
    → IsContiguous m.ext_highest_incoming_sn pkts
    → m.ext_highest_incoming_sn + length pkts + 1 < half_range
    → translate_all m pkts ≡ numbers_after m.ext_last_sn (count_sent pkts)
translate_all_contiguous [] m v c room = unfold translate_all in refl
translate_all_contiguous ((pkt, drop) ∷ pkts) m v c room =
    let rest =
      λ (m' : RtpMunger) (v' : IsReady m')
          (e : m'.ext_highest_incoming_sn ≡ pkt.ext_sequence_number).
        translate_all_contiguous pkts m' v' (subst (λ h. IsContiguous h pkts) (sym (e ∙ c.0)) c.1)
          (omega (arith, e, c.0)) in
    let sent = λ (payload : 0 < pkt.payload_size).
      update_and_get_sn_ts_in_order m pkt false v (omega (arith, c.0)) (omega (arith, c.0))
        (inl payload) in
    elim (dec_lt 0 pkt.payload_size) [
      | yes payload ↦
          elim drop
            as (λ d.
              translate_all m ((pkt, d) ∷ pkts)
              ≡ numbers_after m.ext_last_sn (count_sent ((pkt, d) ∷ pkts))) [
                | true ↦
                    let (last, highest, v') =
                      dropped-IsReady m pkt false v c.0 (omega (arith, c.0)) payload in
                    rw (ne→== pkt.payload_size 0 (omega arith)) (
                      translate_all-dropped m pkt pkts (sent payload).0
                      ∙ rest _ v' highest
                      ∙ ap (λ n. numbers_after n (count_sent pkts)) last)
                | false ↦
                    let (no_error, sn, _, last, _, highest, _, v') = sent payload in
                    let next : (update_and_get_sn_ts m pkt false).1.ext_sequence_number
                        ≡ add64 m.ext_last_sn 1 =
                      sn ∙ ap (λ d. add64 m.ext_last_sn d) (omega (arith, c.0)) in
                    rw (ne→== pkt.payload_size 0 (omega arith)) (
                      translate_all-sent m pkt pkts no_error
                      ∙ ap₂ ◌∷◌ next (
                          rest _ v' highest
                          ∙ ap (λ n. numbers_after n (count_sent pkts)) (last ∙ next)))
              ]
      | no empty ↦
          let (refused, last, highest, v') =
            update_and_get_sn_ts_padding m pkt false v c.0 (omega (arith, c.0)) (omega arith) in
          rw (eq→== pkt.payload_size 0 (omega arith)) (
            translate_all-refused m pkt pkts drop _ refused
            ∙ rest _ v' highest
            ∙ ap (λ n. numbers_after n (count_sent pkts)) last)
    ]
