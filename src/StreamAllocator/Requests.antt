-- ===== src/StreamAllocator/Requests.antt =====
-- pkg/sfu/streamallocator/streamallocator.go, allocateAllTracks: what the managed tracks request.
use voicekit.Prelude.{true, ◌&&◌, some, List, [], ◌∷◌, ◌≡◌, refl, Bool-cases, inl, inr, arith}
use voicekit.Prelude.Int.{ℤ, pos, ◌+ℤ◌, ◌≤ℤ◌, add_lem, eqb_ℤ}
use voicekit.Forwarder.{State}
use voicekit.Forwarder.Fits.{allocated_rate}
use voicekit.Forwarder.Committed.{provisional_allocate_commit-requested, pause-requested}
use voicekit.StreamAllocator.{
  Track, all_layers, prepare_all, commit_all, pause_all, allocate_managed,
}
use voicekit.StreamAllocator.Capacity.{
  total_rate, ArePlaced, AreSound, allocate_layers-IsShared, all_layers-AreInArray,
  prepare_all-ArePlaced, prepare_all-total,
}

-- The bits per second that the last allocations request
unfoldable pub total_requested : List State → ℤ
total_requested [] = pos 0
total_requested (f ∷ fs) = f.last_allocation.bandwidth_requested +ℤ total_requested fs

sum_most : (a b c d : ℤ) → a ≤ℤ c → b ≤ℤ d → a +ℤ b ≤ℤ c +ℤ d
sum_most a b c d h k = let e1 = add_lem a b in let e2 = add_lem c d in omega arith

commit_all-requested :
    (fs : List State)
    → AreSound fs
    → ArePlaced fs
    → (gs : List State) × (commit_all fs ≡ some gs) × (total_requested gs ≤ℤ total_rate fs)
unfolding commit_all AreSound ArePlaced total_requested total_rate
commit_all-requested [] sound placed = ([], refl, omega arith)
commit_all-requested (f ∷ fs) sound placed =
    let one = provisional_allocate_commit-requested f sound.0 placed.0 in
    let rest = commit_all-requested fs sound.1 placed.1 in
    rw (one.1, rest.1)
      (
        one.0.0 ∷ rest.0,
        refl,
        sum_most one.0.0.last_allocation.bandwidth_requested (total_requested rest.0)
            (allocated_rate f) (total_rate fs) one.2 rest.2,
      )

pause_all-requested :
    (ts : List Track)
    → AreSound (prepare_all ts)
    → (gs : List State) × (pause_all ts ≡ some gs) × (total_requested gs ≤ℤ pos 0)
unfolding pause_all AreSound prepare_all total_requested
pause_all-requested [] sound = ([], refl, omega arith)
pause_all-requested (t ∷ ts) sound =
    let one = pause-requested t.forwarder t.available_layers t.bitrates sound.0 in
    let rest = pause_all-requested ts sound.1 in
    rw (one.1, rest.1)
      (
        one.0.0 ∷ rest.0,
        refl,
        rw (one.2)
            (let h = rest.2 in let e = add_lem (pos 0) (total_requested rest.0) in omega arith),
      )

-- If pausing is allowed, the capacity is at least 0, and of each managed track the maximum is within
-- the layers that there are, the target is none or one of them, and no bitrate is negative, then the
-- allocation ends without a panic, and the sum of what the tracks request is at most the capacity.
pub allocate_managed-total_requested :
    (ts : List Track) (capacity : ℤ)
    → pos 0 ≤ℤ capacity
    → AreSound (prepare_all ts)
    → (fs : List State) × (allocate_managed true capacity ts ≡ some fs)
      × (total_requested fs ≤ℤ capacity)
unfolding allocate_managed
allocate_managed-total_requested ts capacity h sound =
    let shared =
      allocate_layers-IsShared all_layers capacity (prepare_all ts) all_layers-AreInArray h
        (prepare_all-ArePlaced ts) in
    let committed = commit_all-requested shared.0.0 (shared.2.sound sound) shared.2.placed in
    let paused = pause_all-requested ts sound in
    elim (Bool-cases (eqb_ℤ capacity (pos 0) && true)) [
      | inl e ↦ rw e (paused.0, paused.1, (let k = paused.2 in omega arith))
      | inr e ↦
          rw (e, shared.1, committed.1)
            (
              committed.0,
              refl,
              (let a = shared.2.bounded in
                  let b = prepare_all-total ts in
                  let c = committed.2 in
                  let d = shared.2.is_left in
                  let e1 = add_lem (total_rate (prepare_all ts)) capacity in
                  let e2 = add_lem (total_rate shared.0.0) shared.0.1 in omega arith),
            )
    ]
