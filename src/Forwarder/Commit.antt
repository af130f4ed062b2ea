-- ===== src/Forwarder/Commit.antt =====
-- pkg/sfu/forwarder.go, ProvisionalAllocateCommit: the end of a trial, which becomes the allocation.
use voicekit.Prelude.{true, false, ◌&&◌, ◌||◌, Option, some, if◌then◌else◌, ◌>>=◌}
use voicekit.Prelude.Int.{ℤ, pos, ◌-ℤ◌, leb_ℤ, eqb_ℤ}
use voicekit.VideoLayer.{is_valid, greater_than}
use voicekit.Bitrates.{Quotient, get_optimal_bandwidth_needed, get_distance_to_desired}
use voicekit.Forwarder.{
  State, VideoAllocation, not_paused, muted_reason, pub_muted_reason, feed_dry, bandwidth,
  update_allocation, bandwidth_of_target,
}
use voicekit.Forwarder.Provisional.{allocate, rate_or_none}

-- The allocation before the cases, with what the target needed before
abbrev pub uncommitted : State → ℤ → ℤ → Quotient → VideoAllocation
uncommitted f optimal before distance = record {
  pause_reason = not_paused;
  is_deficient = false;
  bandwidth_requested = pos 0;
  bandwidth_delta = pos 0 -ℤ before;
  bandwidth_needed = optimal;
  bitrates = f.provisional.bitrates;
  target_layer = f.provisional.allocated_layer;
  request_layer_spatial = f.provisional.allocated_layer.spatial;
  max_layer = f.provisional.max_layer;
  distance_to_desired = distance;
}

abbrev pub request : VideoAllocation → ℤ → ℤ → VideoAllocation
request alloc requested before = record alloc {
  bandwidth_requested = requested;
  bandwidth_delta = requested -ℤ before;
}

-- A feed that is dry leaves the target at the current layer, if that is not above the maximum.
unfoldable pub commit_dry : State → VideoAllocation → State × VideoAllocation
commit_dry f alloc =
    let current = f.provisional.current_layer in
    let dry = record alloc { pause_reason = feed_dry } in
    if is_valid current && leb_ℤ current.spatial f.provisional.max_layer.spatial
    then (
      allocate f current,
      record dry { target_layer = current; request_layer_spatial = current.spatial },
    )
    else (f, dry)

unfoldable pub commit_requested : State → VideoAllocation → VideoAllocation
commit_requested f alloc =
    if greater_than f.provisional.allocated_layer f.provisional.max_layer
      || leb_ℤ alloc.bandwidth_needed alloc.bandwidth_requested
    then alloc
    else if is_valid f.provisional.allocated_layer
    then record alloc { is_deficient = true }
    else record alloc { is_deficient = true; pause_reason = bandwidth }

-- The bits per second of the allocated layer, which are not read where the track is muted
unfoldable pub allocated_or_none : State → Option ℤ
allocated_or_none f =
    if f.provisional.muted || f.provisional.pub_muted
    then some (pos 0)
    else rate_or_none f.provisional.bitrates f.provisional.allocated_layer

-- The cases, for the bits per second of the allocated layer
unfoldable pub commit_case : State → ℤ → ℤ → VideoAllocation → State × VideoAllocation
commit_case f requested before alloc =
    if f.provisional.muted
    then (f, record alloc { pause_reason = muted_reason })
    else if f.provisional.pub_muted
    then (f, record alloc { pause_reason = pub_muted_reason })
    else if eqb_ℤ alloc.bandwidth_needed (pos 0)
    then (if is_valid f.provisional.allocated_layer
        then (f, request alloc requested before)
        else commit_dry f alloc)
    else (f, commit_requested f (request alloc requested before))

unfoldable pub provisional_allocate_commit : State → Option (State × VideoAllocation)
provisional_allocate_commit f = do
  optimal ←
      get_optimal_bandwidth_needed f.provisional.muted f.provisional.pub_muted
        f.provisional.max_seen_layer.spatial f.provisional.bitrates f.provisional.max_layer
  before ← bandwidth_of_target f f.provisional.bitrates
  distance ←
      get_distance_to_desired f.provisional.muted f.provisional.pub_muted
        f.provisional.max_seen_layer f.provisional.available_layers f.provisional.bitrates
        f.provisional.allocated_layer f.provisional.max_layer
  requested ← allocated_or_none f
  let committed = commit_case f requested before (uncommitted f optimal before distance)
  some (update_allocation committed.0 committed.1)
