-- ===== src/Translation/Sent.antt =====
-- pkg/sfu/forwarder.go, GetTranslationParams: a packet that the selector selects is sent.
use voicekit.Prelude.{
  ℕ, ◌+◌, ◌<◌, Bool, true, false, not, ◌&&◌, ◌||◌, Option, some, List, ltb, ◌==◌, eq→==,
  if◌then◌else◌, ◌≡◌, refl, ap, ◌∙◌, ◌>>=◌, inl, arith, add64, sub64,
}
use voicekit.Prelude.Int.{ℤ}
use voicekit.VideoLayer.{is_valid}
use voicekit.RangeMap.{half_range}
use voicekit.LayerSelector.{select_temporal}
use voicekit.RtpMunger.{RtpMunger, TranslationParams, contiguous, gap, update_and_get_sn_ts}
use voicekit.RtpMunger.InOrder.{update_forwards, update_and_get_sn_ts_in_order}
use voicekit.Vp8Munger.{ok}
use voicekit.Translation.{Packet, Parts, Translator}
use voicekit.Translation.Packets.{
  Params, dropped, with_header, translate_codec_header, translate, pauses, selected_params,
  get_translation_params_common, get_translation_params_video, get_translation_params,
}
use voicekit.Translation.Contiguous.{sent, IsRunning, with_numbers_next}

then_case : {A : Type 0} {x : A} (y : A) (b : Bool) → b ≡ true → (if b then x else y) ≡ x
then_case y b h = rw h refl

third_case :
    {A : Type 0} {z : A} (x y : A) (a b : Bool)
    → a ≡ false
    → b ≡ false
    → (if a then x else if b then y else z) ≡ z
third_case x y a b h k = rw (h, k) refl

second_last_case :
    {A : Type 0} {z : A} (x y : A) (a b : Bool)
    → a ≡ true
    → b ≡ true
    → (if not a then x else if not b then y else z) ≡ z
second_last_case x y a b h k = rw (h, k) refl

module _ (P : Parts) where
  -- The packet is sent, with the next number, its own time less the offset and the given header.
  pub record IsSent (m : RtpMunger) (pkt : Packet) (size : ℕ) (bytes : List ℕ)
      (out : Translator P × Params) : Type 0 where
    pub number : sent out.1 ≡ some (add64 m.ext_last_sn 1)
    pub time :
        (rtp : TranslationParams) × (out.1.rtp ≡ some rtp)
        × (rtp.ext_timestamp ≡ sub64 pkt.rtp.ext_timestamp m.ts_offset)
    pub header : out.1.incoming_header_size ≡ size
    pub written : out.1.codec_bytes ≡ bytes

  header_sent :
      (t : Translator P) (pkt : Packet) (tp : Params) (ordering : voicekit.RtpMunger.Ordering)
      (size : ℕ) (bytes : List ℕ)
      → ordering ≡ contiguous
      → (P.update_and_get t.codec pkt false false (select_temporal t.state.vls pkt.media).1).1
        ≡ ok size bytes
      → (u : Translator P) × (translate_codec_header P t pkt tp ordering
          ≡ some (u, record tp { incoming_header_size = size; codec_bytes = bytes }))
        × (u.state.last_allocation ≡ t.state.last_allocation)
  unfolding translate_codec_header with_header
  header_sent t pkt tp ordering size bytes in_order accepts = rw (in_order, accepts) (_, refl, refl)

  translate-IsSent :
      (t : Translator P) (pkt : Packet) (tp : Params) (size : ℕ) (bytes : List ℕ)
      → IsRunning P t
      → tp.should_drop ≡ false
      → pkt.rtp.ext_sequence_number ≡ t.munger.ext_highest_incoming_sn + 1
      → pkt.rtp.ext_sequence_number + 1 < half_range
      → 0 < pkt.rtp.payload_size
      → (P.update_and_get t.codec pkt false false (select_temporal t.state.vls pkt.media).1).1
        ≡ ok size bytes
      → (out : Translator P × Params) × (translate P t pkt tp ≡ some out)
        × IsSent t.munger pkt size bytes out
        × (out.0.state.last_allocation ≡ t.state.last_allocation)
  unfolding translate sent
  translate-IsSent t pkt tp size bytes r kept next room payload accepts =
      let out = update_and_get_sn_ts t.munger pkt.rtp tp.marker in
      let (state, no_error, number, time, order) =
        update_forwards t.munger pkt.rtp tp.marker (omega arith) (omega arith) (inl payload) in
      let (same_error, sn, ts, last, second, highest, same, ready) =
        update_and_get_sn_ts_in_order t.munger pkt.rtp tp.marker r.ready (omega arith) room
          (inl payload) in
      let e : out.1.ext_sequence_number ≡ add64 t.munger.ext_last_sn 1 =
        sn ∙ ap (add64 t.munger.ext_last_sn) (omega arith) in
      let test : ltb (t.munger.ext_highest_incoming_sn + 1) pkt.rtp.ext_sequence_number ≡ false =
        ground arith in
      let in_order : out.1.sn_ordering ≡ contiguous =
        order ∙ ap (λ b. if b then gap else contiguous) test in
      let header =
        header_sent (record t { munger = out.0 }) pkt (record tp { rtp = some out.1 })
          out.1.sn_ordering size bytes in_order accepts in
      let result : Translator P × Params = (
        header.0,
        record tp { rtp = some out.1; incoming_header_size = size; codec_bytes = bytes },
      ) in
      (
        result,
        with_numbers_next P t pkt tp out.0 out.1 out.2 no_error payload ∙ header.1,
        record {
          number = rw kept (ap some e);
          time = (out.1, refl, ts);
          header = refl;
          written = refl;
        },
        header.2,
      )

  -- A forwarder of video that runs, is not muted, has a target and is not deficient gets the next packet
  -- of the stream that it forwards, with a payload and a number far from the end of 64 bits; the selector
  -- selects the packet and the codec munger rewrites its header. Then the packet is sent with the number
  -- after the last one, its timestamp less the offset and the header that the codec munger wrote.
  pub get_translation_params-IsSent :
      (t : Translator P) (pkt : Packet) (layer : ℤ) (size : ℕ) (bytes : List ℕ)
      → IsRunning P t
      → (t.state.muted || t.state.pub_muted || t.state.is_audio) ≡ false
      → is_valid t.state.vls.target_layer ≡ true
      → t.state.last_allocation.is_deficient ≡ false
      → (P.select t.state.vls pkt layer).1.is_selected ≡ true
      → t.state.last_ssrc ≡ pkt.ssrc
      → pkt.rtp.ext_sequence_number ≡ t.munger.ext_highest_incoming_sn + 1
      → pkt.rtp.ext_sequence_number + 1 < half_range
      → 0 < pkt.rtp.payload_size
      → (P.update_and_get t.codec pkt false false
          (select_temporal (P.select t.state.vls pkt layer).0 pkt.media).1).1
        ≡ ok size bytes
      → (out : Translator P × Params) × (get_translation_params P t pkt layer ≡ some out)
        × IsSent t.munger pkt size bytes out
  unfolding get_translation_params get_translation_params_video get_translation_params_common
      selected_params pauses
  get_translation_params-IsSent t pkt layer size bytes r heard valid sufficient selected same next
        room payload accepts =
      let (vls, result) = P.select t.state.vls pkt layer in
      let s : Translator P = record t { state = record (t.state) { vls = vls } } in
      let (out, e, sent, kept) =
        translate-IsSent s pkt (selected_params P result) size bytes
          (record {
            started = r.started;
            ready = r.ready;
            reports = r.reports;
            layered = r.layered;
          })
          refl next room payload accepts in
      let muted : t.state.muted || t.state.pub_muted ≡ false = ground arith in
      let video : t.state.is_audio ≡ false = ground arith in
      let paused : (not out.1.should_drop && pauses P out.0) ≡ false =
        let d : out.0.state.last_allocation.is_deficient ≡ false =
          ap (λ a. a.is_deficient) kept ∙ sufficient in
        rw d (ground arith) in
      let ssrc : (t.state.last_ssrc == pkt.ssrc) ≡ true = eq→== t.state.last_ssrc pkt.ssrc same in
      let shown = λ (r : Option (Translator P × Params)). r >>= (λ (o : Translator P × Params).
        some (o.0, if not o.1.should_drop && pauses P o.0 then dropped o.1 else o.1)) in
      (
        out,
        third_case _ _ (t.state.muted || t.state.pub_muted) t.state.is_audio muted video
            ∙ (second_last_case _ _ (is_valid t.state.vls.target_layer) result.is_selected valid
                  selected
                ∙ (ap shown (then_case _ (t.state.last_ssrc == pkt.ssrc) ssrc ∙ e)
                    ∙ ap (λ b. some (out.0, if b then dropped out.1 else out.1)) paused)),
        sent,
      )
