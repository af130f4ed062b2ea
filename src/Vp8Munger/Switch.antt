-- ===== src/Vp8Munger/Switch.antt =====
-- pkg/sfu/codecmunger/vp8.go: picture ids continue after a switch of streams and after a drop.
use voicekit.Prelude.{
  ℕ, sym, Option, List, ◌%◌, ◌^◌, ◌<◌, ◌≡◌, ◌≢◌, refl, ap, ◌∙◌, Bool, true, false, some, arith,
  if◌then◌else◌, u32_mod, ne→==,
}
use voicekit.Vp8Header.{Vp8, unmarshal}
use mathlib.Core.Path.{subst}
use voicekit.Vp8Munger.{OrderedMap, Vp8Munger, ExtPacket, update_offsets, has, err, filtered_layer}
use voicekit.Vp8Munger.Forward.{update_and_get, in_order, forward}
use voicekit.Vp8Munger.Wire.{IsSentAs, forward-IsSentAs}
use voicekit.Vp8Munger.Unwrap.First.{unwrap-init}
use voicekit.Vp8Munger.Unwrap.{WrapHandler, init, unwrap, update_max_picture_id, add32, sub32, lt32}

-- The picture id fits its 15 or 7 bits.
abbrev pub IsNarrow : Vp8 → Type 0
IsNarrow p = p.picture_id < (if p.m then 2 ^ 15 else 2 ^ 7)

narrow_lt : (m : Bool) (id : ℕ) → id < (if m then 2 ^ 15 else 2 ^ 7) → id < 2 ^ 15
narrow_lt true id h = h
narrow_lt false id h = omega arith

module _ {I : OrderedMap ℕ} {B : OrderedMap Bool} where
  forward-id :
      (v : Vp8Munger I B) (p : Vp8) (ext : ℕ)
      → (forward v p ext).0.ext_last_picture_id ≡ sub32 ext v.picture_id_offset
  unfolding forward
  forward-id v p ext = refl

  -- Two packets were read by `Unmarshal` and have a picture id; the first one's unwrapped id and the
  -- offset fit 32 bits. When the first packet of a picture in order is dropped by its temporal layer,
  -- where it is not exempted from that, it is refused as filtered, and the packet with the next picture
  -- id is sent with a header that has the picture id that the header of the dropped one would have had,
  -- 15 bits of its own id less the offset; the munger notes the same last picture id.
  pub in_order-dropped :
      (v : Vp8Munger I B) (p q : Vp8) (prev_max ext : ℕ) (payload payload' : Option (List ℕ))
      → unmarshal payload ≡ voicekit.Vp8Header.ok p
      → unmarshal payload' ≡ voicekit.Vp8Header.ok q
      → p.i ≡ true
      → q.i ≡ true
      → prev_max ≢ ext
      → has B ext v.exempted ≡ false
      → ext < u32_mod
      → v.picture_id_offset < u32_mod
      → let (v', out) = in_order v p prev_max ext false true in
        let (dropped, would_be) = in_order v p prev_max ext false false in
        let (next, sent) = in_order v' q ext (add32 ext 1) false false in
        let id = sub32 ext v.picture_id_offset % 2 ^ 15 in
        (out ≡ err filtered_layer)
        × IsSentAs would_be p.header_size id
        × IsSentAs sent q.header_size id
        × (next.ext_last_picture_id ≡ dropped.ext_last_picture_id)
  unfolding in_order
  in_order-dropped v p q prev_max ext payload payload' e e' i i' new h word word' =
      let v' = (in_order v p prev_max ext false true).0 in
      let moved : v'.picture_id_offset ≡ add32 v.picture_id_offset 1 =
        rw (h, i, ne→== prev_max ext new) refl in
      let same : sub32 (add32 ext 1) v'.picture_id_offset ≡ sub32 ext v.picture_id_offset =
        rw moved (omega arith) in
      (
        rw h refl,
        forward-IsSentAs v p ext payload e i,
        subst (λ id. IsSentAs (forward v' q (add32 ext 1)).1 q.header_size (id % 2 ^ 15)) same
            (forward-IsSentAs v' q (add32 ext 1) payload' e' i'),
        forward-id v' q (add32 ext 1) ∙ same ∙ sym (forward-id v p ext),
      )

  -- What `update_and_get` of a packet in order that is kept does, by its unwrapped picture id.
  update_and_get-kept :
      (v : Vp8Munger I B) (p : Vp8) (temporal max_temporal_layer ext : ℕ) (w : WrapHandler)
      → lt32 max_temporal_layer temporal ≡ false
      → unwrap v.wrap_handler p.picture_id p.m ≡ (w, ext)
      → update_and_get v
          (record { payload = some p; temporal = temporal })
          false
          false
          max_temporal_layer
        ≡ forward (record v { wrap_handler = update_max_picture_id w ext p.m }) p ext
  unfolding update_and_get in_order
  update_and_get-kept v p temporal max_temporal_layer ext w low e =
      rw low
        (ap (λ r. forward (record v { wrap_handler = update_max_picture_id r.0 r.1 p.m }) p r.1) e)

  update_offsets-handler :
      (v : Vp8Munger I B) (p : Vp8) (temporal : ℕ)
      → v.picture_id_used ≡ true
      → (update_offsets v (record { payload = some p; temporal = temporal })).wrap_handler
        ≡ init (sub32 p.picture_id 1) p.m
  unfolding update_offsets
  update_offsets-handler v p temporal h = rw h refl

  update_offsets-offset :
      (v : Vp8Munger I B) (p : Vp8) (temporal : ℕ)
      → v.picture_id_used ≡ true
      → (update_offsets v (record { payload = some p; temporal = temporal })).picture_id_offset
        ≡ sub32 (sub32 p.picture_id v.ext_last_picture_id) 1
  unfolding update_offsets
  update_offsets-offset v p temporal h = rw h refl

  -- The munger uses picture ids, and the last one that it sent fits 32 bits. `Unmarshal` read a stream's
  -- packet, which has a picture id that fits its 7 or 15 bits and is of a temporal layer that is kept.
  -- After the offsets are updated for it, that packet, in order and without a gap before it, is sent with
  -- a header that has the picture id that follows the last one sent, in 15 bits, whatever its own picture
  -- id is, and the munger notes the id that follows as the last one.
  pub update_and_get-update_offsets :
      (v : Vp8Munger I B) (p : Vp8) (temporal max_temporal_layer : ℕ) (payload : Option (List ℕ))
      → unmarshal payload ≡ voicekit.Vp8Header.ok p
      → p.i ≡ true
      → v.picture_id_used ≡ true
      → IsNarrow p
      → v.ext_last_picture_id < u32_mod
      → lt32 max_temporal_layer temporal ≡ false
      → let pkt : ExtPacket = record { payload = some p; temporal = temporal } in
        let (v', out) = update_and_get (update_offsets v pkt) pkt false false max_temporal_layer in
        let following = add32 v.ext_last_picture_id 1 in
        IsSentAs out p.header_size (following % 2 ^ 15) × (v'.ext_last_picture_id ≡ following)
  update_and_get-update_offsets v p temporal max_temporal_layer payload e x used narrow word low =
      let pkt : ExtPacket = record { payload = some p; temporal = temporal } in
      let v' = update_offsets v pkt in
      let first = init (sub32 p.picture_id 1) p.m in
      let unwrapped : unwrap v'.wrap_handler p.picture_id p.m ≡ (first, p.picture_id) =
        ap (λ h. unwrap h p.picture_id p.m) (update_offsets-handler v p temporal used)
        ∙ unwrap-init p.picture_id p.m narrow in
      let small : p.picture_id < 2 ^ 15 = narrow_lt p.m p.picture_id narrow in
      let kept =
        update_and_get-kept v' p temporal max_temporal_layer p.picture_id first low unwrapped in
      let w : Vp8Munger I B = record v' {
        wrap_handler = update_max_picture_id first p.picture_id p.m;
      } in
      let following : sub32 p.picture_id v'.picture_id_offset ≡ add32 v.ext_last_picture_id 1 =
        ap (λ o. sub32 p.picture_id o) (update_offsets-offset v p temporal used) ∙ omega arith in
      (
        subst (λ r. IsSentAs r.1 p.header_size (add32 v.ext_last_picture_id 1 % 2 ^ 15)) (sym kept)
            (subst (λ id. IsSentAs (forward w p p.picture_id).1 p.header_size (id % 2 ^ 15))
              following (forward-IsSentAs w p p.picture_id payload e x)),
        ap (λ r. r.0.ext_last_picture_id) kept ∙ forward-id w p p.picture_id ∙ following,
      )
