-- ===== src/Translation/Padding.antt =====
-- pkg/sfu/forwarder.go: the numbers of padding and of blank frames. What `rand.Intn` draws is an argument,
-- as is what the statistics of the stream answer, where they do.
use voicekit.Prelude.{
  ℕ, ◌+◌, ◌%◌, ◌^◌, Bool, true, false, not, ◌||◌, Option, none, some, List, ◌==◌, if◌then◌else◌,
  add64, sub64, u16_mod, u32_mod, is_negative64,
}
use voicekit.VideoLayer.{is_valid}
use voicekit.RtpMunger.{RtpMunger, SnTs, Error, set_last_sn_ts, update_and_get_padding_sn_ts}
use voicekit.Translation.{Parts, Translator}

-- A draw below 2 ^ 14 and one below 2 ^ 30
pub record Draw : Type 0 where
  pub for_sn : ℕ
  pub for_ts : ℕ

module _ (P : Parts) where
  unfoldable pub maybe_start : Translator P → Draw → Translator P
  maybe_start t draw =
      let sn = (draw.for_sn % u16_mod + 2 ^ 15) % u16_mod in
      let ts = (draw.for_ts % u32_mod + 2 ^ 31) % u32_mod in
      if t.started then t else record t {
        started = true;
        is_pre_started = true;
        munger = set_last_sn_ts t.munger (record {
          ext_sequence_number = sn;
          ext_timestamp = ts;
          payload_size = 0;
          key_frame = false;
        });
        ext_first_ts = ts;
      }

  unfoldable pub with_munger :
      Translator P → RtpMunger × List SnTs × Option Error → Translator P × List SnTs × Option Error
  with_munger t (munger, vals, error) = (record t { munger = munger }, vals, error)

  unfoldable pub get_sn_ts_for_padding :
      Translator P → Draw → ℕ → Bool → Translator P × List SnTs × Option Error
  get_sn_ts_for_padding t draw num force_marker =
      let u = maybe_start t draw in
      let force = force_marker || not (is_valid u.state.vls.target_layer) in
      with_munger u (update_and_get_padding_sn_ts u.munger num 0 0 force 0)

  abbrev pub or_last : ℕ → Option ℕ → ℕ
  or_last last none = last
  or_last last (some ts) = ts

  unfoldable pub later_than : ℕ → ℕ → ℕ
  later_than last expected =
      let d = sub64 expected last in if d == 0 || is_negative64 d then add64 last 1 else expected

  -- With whether the end of a frame is needed first
  unfoldable pub get_sn_ts_for_blank_frames :
      Translator P → Draw → Option ℕ → ℕ → ℕ → Bool × (Translator P × List SnTs × Option Error)
  get_sn_ts_for_blank_frames t draw expected frame_rate num_packets =
      let u = maybe_start t draw in
      let frame_end_needed = not u.munger.last_marker in
      let num = if frame_end_needed then num_packets + 1 else num_packets in
      let last = u.munger.ext_last_ts in
      (
        frame_end_needed,
        with_munger u (
            update_and_get_padding_sn_ts u.munger num u.clock_rate frame_rate frame_end_needed
              (later_than last (or_last last expected))),
      )
