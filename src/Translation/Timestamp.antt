-- ===== src/Translation/Timestamp.antt =====
-- pkg/sfu/forwarder.go: getRefLayerRTPTimestamp, and the timestamp with which processSourceSwitch goes
-- on when the packets come from another stream.
use voicekit.Prelude.{
  ℕ, ◌+◌, ◌-◌, ◌*◌, ◌/◌, ◌%◌, ◌^◌, Bool, not, ◌&&◌, ◌||◌, Option, none, some, List, get_elem?,
  length, ltb, leb, ◌==◌, if◌then◌else◌, add64, sub64, u64_mod, u32_mod, is_negative64,
}
use voicekit.Prelude.Int.{ℤ, pos, negsuc, eqb_ℤ}
use voicekit.Translation.{SenderReport, Parts, Translator}

-- The quotient of an int64, which is rounded to 0
unfoldable pub div_int64 : ℕ → ℕ → ℕ
div_int64 x d = if is_negative64 x then sub64 0 ((u64_mod - x) / d) else x / d

pub data RefTs : Type 0 where
  ref_ts : ℕ → RefTs
  no_ref_ts : RefTs
  ref_panics : RefTs

-- A layer as an index of the reports; the tests let the length itself pass.
unfoldable pub index_of : List (Option SenderReport) → ℤ → Option ℕ
index_of infos (negsuc n) = none
index_of infos (pos n) = if ltb (length infos) n then none else some n

unfoldable pub has_ntp : Option SenderReport → Option SenderReport
has_ntp none = none
has_ntp (some r) = if r.ntp_timestamp == 0 then none else some r

module _ (P : Parts) where
  unfoldable pub between_reports : ℕ → ℕ → Option SenderReport → Option SenderReport → RefTs
  between_reports clock_rate ts (some ref) (some target) =
      let rtp_diff =
        div_int64 (P.ntp_difference ref.ntp_timestamp target.ntp_timestamp * clock_rate % u64_mod)
          1000000000 in
      let normalized = (target.rtp_timestamp + rtp_diff) % u32_mod in
      ref_ts ((ts + (ref.rtp_timestamp + u32_mod - normalized) % u32_mod) % u32_mod)
  between_reports clock_rate ts none target = no_ref_ts
  between_reports clock_rate ts (some ref) none = no_ref_ts

  unfoldable pub at_reports :
      ℕ → ℕ → Option (Option SenderReport) → Option (Option SenderReport) → RefTs
  at_reports clock_rate ts (some ref) (some target) =
      between_reports clock_rate ts (has_ntp ref) (has_ntp target)
  at_reports clock_rate ts none target = ref_panics
  at_reports clock_rate ts (some ref) none = ref_panics

  unfoldable pub at_layers : Translator P → ℕ → Option ℕ → Option ℕ → Bool → RefTs
  at_layers t ts (some ref) (some target) same =
      if same || t.ref_is_svc
      then ref_ts ts
      else at_reports t.clock_rate ts (get_elem? t.ref_infos ref) (get_elem? t.ref_infos target)
  at_layers t ts none target same = no_ref_ts
  at_layers t ts (some ref) none same = no_ref_ts

  unfoldable pub get_ref_layer_rtp_timestamp : Translator P → ℕ → ℤ → ℤ → RefTs
  get_ref_layer_rtp_timestamp t ts ref_layer target_layer =
      at_layers t ts (index_of t.ref_infos ref_layer) (index_of t.ref_infos target_layer)
        (eqb_ℤ ref_layer target_layer)

  -- The wrap-around of the 32 bits since the last timestamp
  unfoldable pub near_last : ℕ → ℕ → ℕ
  near_last last ext_ref =
      let last_ts = last % u32_mod in
      let ref = ext_ref % u32_mod in
      let up =
        if ltb ((ref + u32_mod - last_ts) % u32_mod) (2 ^ 31) && ltb ref last_ts
        then add64 ext_ref u32_mod
        else ext_ref in
      if ltb ((last_ts + u32_mod - ref) % u32_mod) (2 ^ 31) && ltb last_ts ref && leb u32_mod up
      then sub64 up u32_mod
      else up

  unfoldable pub adjusted_ref : ℕ → ℕ → ℕ → ℕ
  adjusted_ref last ref dummy = add64 (add64 (last / u32_mod * u32_mod) ref) dummy

  -- The expected and the reference timestamp, and the offset of the dummy start
  pub record Estimate : Type 0 where
    pub ext_expected : ℕ
    pub ext_ref : ℕ
    pub dummy : ℕ

  unfoldable pub since_first : Translator P → ℕ → ℕ
  since_first t nanoseconds =
      add64 t.ext_first_ts (div_int64 (nanoseconds * t.clock_rate % u64_mod) 1000000000)

  unfoldable pub estimate : Translator P → ℕ → ℕ → ℕ → Option (Option ℕ) → ℕ → Estimate
  estimate t last ref ext_ref none since = record {
    ext_expected = last;
    ext_ref = ext_ref;
    dummy = t.dummy_start_ts_offset;
  }
  estimate t last ref ext_ref (some (some ts)) since = elim t.last_payload_type [
    | none ↦ record { ext_expected = ts; ext_ref = ts; dummy = sub64 ts ref }
    | some payload_type ↦ record {
      ext_expected = ts;
      ext_ref = ext_ref;
      dummy = t.dummy_start_ts_offset;
    }
  ]
  estimate t last ref ext_ref (some none) since =
      let first = since_first t since in
      if not t.is_pre_started
      then record { ext_expected = last; ext_ref = ext_ref; dummy = t.dummy_start_ts_offset }
      else if t.dummy_start_ts_offset == 0
      then record { ext_expected = first; ext_ref = first; dummy = sub64 first ref }
      else record { ext_expected = first; ext_ref = ext_ref; dummy = t.dummy_start_ts_offset }

  unfoldable pub resumed : Translator P → Estimate → ℕ
  resumed t e =
      let diff = P.float.seconds (sub64 e.ext_expected e.ext_ref) t.clock_rate in
      let threshold = t.state.resume_behind_threshold in
      if P.float.at_least diff (P.float.of_millis 0)
      then (if ltb 0 threshold && P.float.less (P.float.of_millis threshold) diff
          then e.ext_expected
          else if P.float.less (P.float.of_millis 2000) diff
          then e.ext_expected
          else e.ext_ref)
      else e.ext_ref

  unfoldable pub switched : Translator P → Estimate → ℕ → Option ℕ
  switched t e last =
      let diff = P.float.seconds (sub64 e.ext_ref last) t.clock_rate in
      if P.float.less diff (P.float.of_millis 0)
      then (if P.float.less (P.float.of_millis 50) (P.float.abs diff)
          then none
          else some (add64 last 1))
      else some e.ext_ref

  -- The next timestamp, which is moved past the last one
  unfoldable pub past_last : ℕ → ℕ → ℕ
  past_last last next =
      let d = sub64 next last in if d == 0 || is_negative64 d then add64 last 1 else next
