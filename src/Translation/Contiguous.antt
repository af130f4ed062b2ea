-- ===== src/Translation/Contiguous.antt =====
-- pkg/sfu/forwarder.go, GetTranslationParams: the outgoing numbers of a track, while its packets come
-- from one stream or another and its state is changed in between.
use voicekit.Prelude.{
  ℕ, ◌+◌, ◌<◌, Bool, true, false, Option, none, some, List, length, ltb, if◌then◌else◌, ◌≡◌, refl,
  sym, ap, ◌∙◌, ◌⊎◌, inl, inr, arith, add64, ne→==,
}
use mathlib.Core.Path.{subst}
use voicekit.Prelude.Int.{ℤ, pos, ltb_ℤ}
use voicekit.RangeMap.{half_range}
use voicekit.RtpMunger.{
  RtpMunger, TranslationParams, contiguous, gap, update_and_get_sn_ts, packet_dropped,
}
use voicekit.RtpMunger.InOrder.{IsReady, update_forwards, update_and_get_sn_ts_in_order}
use voicekit.RtpMunger.Runs.{dropped-IsReady}
use voicekit.LayerSelector.{select_temporal}
use voicekit.Vp8Munger.{ok, err, filtered_layer}
use voicekit.Translation.{Packet, Parts, Translator}
use voicekit.Translation.Packets.{
  Params, with_header, with_numbers, translate_codec_header, translate,
}

-- The outgoing number of a packet that is sent
unfoldable pub sent : Params → Option ℕ
sent tp =
    if tp.should_drop
    then none
    else elim tp.rtp [ none ↦ none | some rtp ↦ some rtp.ext_sequence_number ]

pub sent_kept :
    (tp : Params) (rtp : TranslationParams)
    → tp.should_drop ≡ false
    → sent (record tp { rtp = some rtp }) ≡ some rtp.ext_sequence_number
unfolding sent
sent_kept tp rtp h = rw h refl

-- In order, the codec munger rewrites the header of a packet or filters its temporal layer.
unfoldable pub TakesInOrder : (P : Parts) → (Packet → Type 0) → Type 0
TakesInOrder P IsGood =
    (c : P.Codec) (pkt : Packet) (layer : ℤ)
    → IsGood pkt
    → ((size : ℕ) × (bytes : List ℕ) × ((P.update_and_get c pkt false false layer).1
          ≡ ok size bytes))
      ⊎ ((P.update_and_get c pkt false false layer).1 ≡ err filtered_layer)

module _ (P : Parts) where
  -- What holds between packets
  pub record IsRunning (t : Translator P) : Type 0 where
    pub started : t.started ≡ true
    pub ready : IsReady t.munger
    pub reports : length t.ref_infos ≡ 3
    pub layered : ltb_ℤ t.reference_layer_spatial (pos 3) ≡ true

  -- A packet is sent with the next number, or it is dropped and leaves the last number as it was; d
  -- tells whether the allocation is deficient.
  pub record IsNumbered (last : ℕ) (d : Bool) (out : Translator P × Params) : Type 0 where
    pub running : IsRunning out.0
    pub allocation : out.0.state.last_allocation.is_deficient ≡ d
    pub accepted : out.1.has_error ≡ false
    pub numbered :
        ((sent out.1 ≡ some (add64 last 1)) × (out.0.munger.ext_last_sn ≡ add64 last 1))
        ⊎ ((sent out.1 ≡ none) × (out.0.munger.ext_last_sn ≡ last))

  abbrev pub Numbers : ℕ → Bool → Option (Translator P × Params) → Type 0
  Numbers last d result =
      (out : Translator P × Params) × (result ≡ some out) × IsNumbered last d out

  pub with_numbers_next :
      (t : Translator P) (pkt : Packet) (tp : Params) (m : RtpMunger) (rtp : TranslationParams)
      (e : Option voicekit.RtpMunger.Error)
      → e ≡ none
      → 0 < pkt.rtp.payload_size
      → with_numbers P t pkt tp (m, rtp, e)
        ≡ translate_codec_header P
            (record t { munger = m })
            pkt
            (record tp { rtp = some rtp })
            rtp.sn_ordering
  unfolding with_numbers
  with_numbers_next t pkt tp m rtp e no_error payload =
      rw (no_error, ne→== pkt.rtp.payload_size 0 (omega arith)) refl

  module _ (IsGood : Packet → Type 0) (takes : TakesInOrder P IsGood) where
    -- The next packet of the stream, after its numbers are known
    header_numbered :
        (t : Translator P) (pkt : Packet) (tp : Params) (last : ℕ)
        (ordering : voicekit.RtpMunger.Ordering)
        → IsRunning t
        → IsGood pkt
        → ordering ≡ contiguous
        → tp.has_error ≡ false
        → sent tp ≡ some (add64 last 1)
        → t.munger.ext_last_sn ≡ add64 last 1
        → ((packet_dropped t.munger pkt.rtp).ext_last_sn ≡ last)
          × IsReady (packet_dropped t.munger pkt.rtp)
        → Numbers last
            (t.state.last_allocation.is_deficient)
            (translate_codec_header P t pkt tp ordering)
    unfolding translate_codec_header with_header sent TakesInOrder
    header_numbered t pkt tp last ordering r good in_order accepted number at_last back =
        rw in_order (elim (takes t.codec pkt (select_temporal t.state.vls pkt.media).1 good) [
          | inl (size, bytes, e) ↦ rw e (
            _,
            refl,
            record {
              running = record {
                started = r.started;
                ready = r.ready;
                reports = r.reports;
                layered = r.layered;
              };
              allocation = refl;
              accepted = accepted;
              numbered = inl (number, at_last);
            },
          )
          | inr e ↦ rw e (
            _,
            refl,
            record {
              running = record {
                started = r.started;
                ready = back.1;
                reports = r.reports;
                layered = r.layered;
              };
              allocation = refl;
              accepted = accepted;
              numbered = inr (refl, back.0);
            },
          )
        ])

    pub translate_numbered :
        (t : Translator P) (pkt : Packet) (tp : Params)
        → IsRunning t
        → IsGood pkt
        → (tp.should_drop ≡ false) × (tp.has_error ≡ false)
        → pkt.rtp.ext_sequence_number ≡ t.munger.ext_highest_incoming_sn + 1
        → pkt.rtp.ext_sequence_number + 1 < half_range
        → 0 < pkt.rtp.payload_size
        → Numbers t.munger.ext_last_sn (t.state.last_allocation.is_deficient) (translate P t pkt tp)
    unfolding translate
    translate_numbered t pkt tp r good kept next room payload =
        let out = update_and_get_sn_ts t.munger pkt.rtp tp.marker in
        let (state, no_error, number, time, order) =
          update_forwards t.munger pkt.rtp tp.marker (omega arith) (omega arith) (inl payload) in
        let (no_error, sn, ts, last, second, highest, same, ready) =
          update_and_get_sn_ts_in_order t.munger pkt.rtp tp.marker r.ready (omega arith) room
            (inl payload) in
        let e : out.1.ext_sequence_number ≡ add64 t.munger.ext_last_sn 1 =
          sn ∙ ap (add64 t.munger.ext_last_sn) (omega arith) in
        let back = dropped-IsReady t.munger pkt.rtp tp.marker r.ready next room payload in
        let in_order : out.1.sn_ordering ≡ contiguous =
          let test : ltb (t.munger.ext_highest_incoming_sn + 1) pkt.rtp.ext_sequence_number
              ≡ false =
            ground arith in
          order ∙ ap (λ b. if b then gap else contiguous) test in
        subst (Numbers t.munger.ext_last_sn (t.state.last_allocation.is_deficient))
          (sym (with_numbers_next t pkt tp out.0 out.1 out.2 no_error payload))
          (header_numbered (record t { munger = out.0 }) pkt (record tp { rtp = some out.1 })
            t.munger.ext_last_sn out.1.sn_ordering
            (record {
              started = r.started;
              ready = ready;
              reports = r.reports;
              layered = r.layered;
            })
            good in_order kept.1 (sent_kept tp out.1 kept.0 ∙ ap some e) (last ∙ e)
            (back.0, back.2))
