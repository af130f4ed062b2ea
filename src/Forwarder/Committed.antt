-- ===== src/Forwarder/Committed.antt =====
-- pkg/sfu/forwarder.go, ProvisionalAllocateCommit: what the committed allocation requests.
use voicekit.Prelude.{
  ◌&&◌, ◌||◌, some, List, ◌≡◌, refl, ◌∙◌, Bool-cases, inl, inr, arith, if_either,
}
use mathlib.Core.Path.{subst, sym}
use voicekit.Prelude.Int.{ℤ, pos, pos_part, ◌≤ℤ◌, leb_ℤ, eqb_ℤ}
use voicekit.VideoLayer.{invalid_layer, is_valid, greater_than}
use voicekit.Bitrates.{Bitrates}
use voicekit.Bitrates.Highest.{get_optimal_bandwidth_needed-some}
use voicekit.Bitrates.Distance.{get_bandwidth_needed-some, get_distance_to_desired-some}
use voicekit.Forwarder.{
  State, VideoAllocation, update_allocation, restrict_temporal, set_target_layer, resync,
  unallocated, paused, pause,
}
use voicekit.Forwarder.Provisional.{provisional_allocate_prepare}
use voicekit.Forwarder.Commit.{
  uncommitted, request, commit_dry, commit_requested, allocated_or_none, commit_case,
  provisional_allocate_commit,
}
use voicekit.Forwarder.Fits.{IsSound, allocated_rate, IsPlaced, rate_or_none-IsPlaced}

restrict_temporal-requested :
    (f : State) (alloc : VideoAllocation)
    → (restrict_temporal f alloc).bandwidth_requested ≡ alloc.bandwidth_requested
unfolding restrict_temporal
restrict_temporal-requested f alloc =
    if_either (λ (a : VideoAllocation). a.bandwidth_requested ≡ alloc.bandwidth_requested)
      (is_valid alloc.target_layer && f.is_h264) refl refl

pub update_allocation-requested :
    (f : State) (alloc : VideoAllocation)
    → (update_allocation f alloc).0.last_allocation.bandwidth_requested ≡ alloc.bandwidth_requested
unfolding update_allocation resync set_target_layer
update_allocation-requested f alloc =
    if_either (λ (g : State). g.last_allocation.bandwidth_requested ≡ alloc.bandwidth_requested)
      (is_valid (restrict_temporal f alloc).target_layer) (restrict_temporal-requested f alloc)
      (restrict_temporal-requested f alloc)

paused-requested :
    (f : State) (alloc : VideoAllocation)
    → (paused f alloc).bandwidth_requested ≡ alloc.bandwidth_requested
paused-requested f alloc =
    let P = λ (a : VideoAllocation). a.bandwidth_requested ≡ alloc.bandwidth_requested in
    if_either P f.muted refl
      (if_either P f.pub_muted refl (if_either P (eqb_ℤ alloc.bandwidth_needed (pos 0)) refl refl))

commit_dry-requested :
    (f : State) (alloc : VideoAllocation)
    → (commit_dry f alloc).1.bandwidth_requested ≡ alloc.bandwidth_requested
unfolding commit_dry
commit_dry-requested f alloc =
    let current = f.provisional.current_layer in
    if_either (λ (r : State × VideoAllocation). r.1.bandwidth_requested ≡ alloc.bandwidth_requested)
      (is_valid current && leb_ℤ current.spatial f.provisional.max_layer.spatial) refl refl

commit_requested-requested :
    (f : State) (alloc : VideoAllocation)
    → (commit_requested f alloc).bandwidth_requested ≡ alloc.bandwidth_requested
unfolding commit_requested
commit_requested-requested f alloc =
    let P = λ (a : VideoAllocation). a.bandwidth_requested ≡ alloc.bandwidth_requested in
    if_either P
      (greater_than f.provisional.allocated_layer f.provisional.max_layer
        || leb_ℤ alloc.bandwidth_needed alloc.bandwidth_requested)
      refl (if_either P (is_valid f.provisional.allocated_layer) refl refl)

commit_case-requested :
    (f : State) (requested before : ℤ) (alloc : VideoAllocation)
    → alloc.bandwidth_requested ≡ pos 0
    → pos 0 ≤ℤ requested
    → (commit_case f requested before alloc).1.bandwidth_requested ≤ℤ requested
unfolding commit_case
commit_case-requested f requested before alloc nothing h =
    let P = λ (r : State × VideoAllocation). r.1.bandwidth_requested ≤ℤ requested in
    let at_nothing = subst (λ r. r ≤ℤ requested) (sym nothing) h in
    let all = request alloc requested before in
    if_either P f.provisional.muted at_nothing (
      if_either P f.provisional.pub_muted at_nothing (
        if_either P (eqb_ℤ alloc.bandwidth_needed (pos 0))
          (if_either P (is_valid f.provisional.allocated_layer) (omega arith)
            (subst (λ r. r ≤ℤ requested) (sym (commit_dry-requested f alloc)) at_nothing))
          (subst (λ r. r ≤ℤ requested) (sym (commit_requested-requested f all)) (omega arith))))

allocated_rate-nonnegative : (f : State) → IsSound f → pos 0 ≤ℤ allocated_rate f
unfolding IsSound allocated_rate
allocated_rate-nonnegative f (_, _, _, rates) =
    let v = f.provisional.allocated_layer in
    if_either (λ r. pos 0 ≤ℤ r) (is_valid v) (rates (pos_part v.spatial) (pos_part v.temporal))
      (omega arith)

allocated_or_none-some :
    (f : State)
    → IsSound f
    → IsPlaced f
    → (r : ℤ) × (allocated_or_none f ≡ some r) × (pos 0 ≤ℤ r) × (r ≤ℤ allocated_rate f)
unfolding allocated_or_none
allocated_or_none-some f sound placed =
    let h = allocated_rate-nonnegative f sound in
    elim (Bool-cases (f.provisional.muted || f.provisional.pub_muted)) [
      | inl e ↦ rw e (pos 0, refl, omega arith, h)
      | inr e ↦ rw e (allocated_rate f, rate_or_none-IsPlaced f placed, h, omega arith)
    ]

-- A pause requests nothing.
pub pause-requested :
    (f : State) (available : List ℤ) (brs : Bitrates)
    → IsSound (provisional_allocate_prepare f available brs)
    → (r : State × VideoAllocation) × (pause f available brs ≡ some r)
      × (r.0.last_allocation.bandwidth_requested ≡ pos 0)
unfolding pause IsSound provisional_allocate_prepare
pause-requested f available brs sound =
    let optimal =
      get_optimal_bandwidth_needed-some f.muted f.pub_muted f.vls.max_seen_layer.spatial brs
        f.vls.max_layer sound.0 sound.1 in
    let before =
      get_bandwidth_needed-some brs f.vls.target_layer f.last_allocation.bandwidth_requested
        sound.2 in
    let distance =
      get_distance_to_desired-some f.muted f.pub_muted f.vls.max_seen_layer available brs
        invalid_layer f.vls.max_layer sound.0 in
    let alloc = unallocated f brs optimal.0 before.0 distance.0 in
    rw (optimal.1, before.1, distance.1)
      (_, refl, update_allocation-requested f (paused f alloc) ∙ paused-requested f alloc)

-- A trial that is placed on a sound state is committed without a panic, and no more is requested
-- than the bitrate of its layer.
pub provisional_allocate_commit-requested :
    (f : State)
    → IsSound f
    → IsPlaced f
    → (r : State × VideoAllocation) × (provisional_allocate_commit f ≡ some r)
      × (r.0.last_allocation.bandwidth_requested ≤ℤ allocated_rate f)
unfolding provisional_allocate_commit IsSound
provisional_allocate_commit-requested f sound placed =
    let p = f.provisional in
    let optimal =
      get_optimal_bandwidth_needed-some p.muted p.pub_muted p.max_seen_layer.spatial p.bitrates
        p.max_layer sound.0 sound.1 in
    let before =
      get_bandwidth_needed-some p.bitrates f.vls.target_layer f.last_allocation.bandwidth_requested
        sound.2 in
    let distance =
      get_distance_to_desired-some p.muted p.pub_muted p.max_seen_layer p.available_layers
        p.bitrates p.allocated_layer p.max_layer sound.0 in
    let requested = allocated_or_none-some f sound placed in
    let alloc = uncommitted f optimal.0 before.0 distance.0 in
    let committed = commit_case f requested.0 before.0 alloc in
    let bounded = commit_case-requested f requested.0 before.0 alloc refl requested.2 in
    let most = requested.3 in
    let amount = update_allocation-requested committed.0 committed.1 in
    rw (optimal.1, before.1, distance.1, requested.1)
      (_, refl, subst (λ r. r ≤ℤ allocated_rate f) (sym amount) (omega arith))
