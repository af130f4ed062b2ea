-- ===== src/StreamAllocator.antt =====
-- pkg/sfu/streamallocator/streamallocator.go, allocateAllTracks, with its calls of track.go: the
-- layers that the tracks of a subscriber get in a congested channel. A track is its forwarder with
-- what the receiver reports of its layers. `sort` is sort.Sort by the order of TrackSorter, from the
-- standard library. The notices of changed stream states are not here.
pub mod Capacity
pub mod Requests
pub mod NoPause
mod Examples
use voicekit.Prelude.{
  ℕ, zero, suc, Bool, true, false, not, ◌&&◌, Option, none, some, List, [], ◌∷◌, if◌then◌else◌,
  ◌>>=◌,
}
use voicekit.Prelude.Int.{ℤ, pos, ◌-ℤ◌, ltb_ℤ, eqb_ℤ, max_ℤ}
use voicekit.VideoLayer.{VideoLayer}
use voicekit.Bitrates.{Bitrates}
use voicekit.Forwarder.{State, VideoAllocation, pause}
use voicekit.Forwarder.Optimal.{allocate_optimal}
use voicekit.Forwarder.Provisional.{provisional_allocate_prepare, provisional_allocate}
use voicekit.Forwarder.Commit.{provisional_allocate_commit}

pub record Track : Type 0 where
  pub forwarder : State
  pub available_layers : List ℤ
  pub bitrates : Bitrates
  pub is_managed : Bool

-- The fields of the configuration and of the allocator that are read, of one that is enabled
pub record Params : Type 0 where
  pub allow_pause : Bool
  pub committed_channel_capacity : ℤ
  pub overridden_channel_capacity : ℤ
  pub min_channel_capacity : ℤ
  pub disable_estimation_unmanaged_tracks : Bool

unfoldable pub get_available_channel_capacity : Params → Bool → ℤ
get_available_channel_capacity s allow_override =
    if allow_override && ltb_ℤ (pos 0) s.overridden_channel_capacity
    then s.overridden_channel_capacity
    else max_ℤ s.committed_channel_capacity s.min_channel_capacity

-- One layer is tried on each track; `FlagAllowOvershootWhileDeficient` is false.
unfoldable pub allocate_layer : Bool → VideoLayer → ℤ → List State → Option (List State × ℤ)
allocate_layer allow_pause layer capacity [] = some ([], capacity)
allocate_layer allow_pause layer capacity (f ∷ fs) = do
  trial ← provisional_allocate f capacity layer allow_pause false
  rest ← allocate_layer allow_pause layer (max_ℤ (pos 0) (capacity -ℤ trial.2)) fs
  some (trial.0 ∷ rest.0, rest.1)

unfoldable pub allocate_layers : Bool → List VideoLayer → ℤ → List State → Option (List State × ℤ)
allocate_layers allow_pause [] capacity fs = some (fs, capacity)
allocate_layers allow_pause (layer ∷ layers) capacity fs = do
  tried ← allocate_layer allow_pause layer capacity fs
  allocate_layers allow_pause layers tried.1 tried.0

-- The layers in the order of the two loops, from 0 to the highest of each kind
abbrev pub temporal_layers : ℤ → List VideoLayer
temporal_layers s =
    record { spatial = s; temporal = pos 0 }
    ∷ record { spatial = s; temporal = pos 1 }
    ∷ record { spatial = s; temporal = pos 2 }
    ∷ record { spatial = s; temporal = pos 3 }
    ∷ []

abbrev pub both : List VideoLayer → List VideoLayer → List VideoLayer
both [] vs = vs
both (v ∷ us) vs = v ∷ both us vs

abbrev pub all_layers : List VideoLayer
all_layers =
    both (temporal_layers (pos 0)) (both (temporal_layers (pos 1)) (temporal_layers (pos 2)))

unfoldable pub prepare_all : List Track → List State
prepare_all [] = []
prepare_all (t ∷ ts) =
    provisional_allocate_prepare t.forwarder t.available_layers t.bitrates ∷ prepare_all ts

unfoldable pub commit_all : List State → Option (List State)
commit_all [] = some []
commit_all (f ∷ fs) = do
  committed ← provisional_allocate_commit f
  rest ← commit_all fs
  some (committed.0 ∷ rest)

unfoldable pub pause_all : List Track → Option (List State)
pause_all [] = some []
pause_all (t ∷ ts) = do
  paused ← pause t.forwarder t.available_layers t.bitrates
  rest ← pause_all ts
  some (paused.0 ∷ rest)

-- The managed tracks, in the order of the sorter, share what is left.
unfoldable pub allocate_managed : Bool → ℤ → List Track → Option (List State)
allocate_managed allow_pause capacity sorted =
    if eqb_ℤ capacity (pos 0) && allow_pause then pause_all sorted else (do
      tried ← allocate_layers allow_pause all_layers capacity (prepare_all sorted)
      commit_all tried.0)

-- The tracks that are not managed get what is optimal; `FlagAllowOvershootExemptTrackWhileDeficient`
-- is true.
unfoldable pub allocate_unmanaged : Params → ℤ → List Track → Option (List State × ℤ)
allocate_unmanaged s capacity [] = some ([], capacity)
allocate_unmanaged s capacity (t ∷ ts) =
    if t.is_managed then allocate_unmanaged s capacity ts else (do
      allocated ← allocate_optimal t.forwarder t.available_layers t.bitrates true false
      rest ←
          allocate_unmanaged s
            (if s.disable_estimation_unmanaged_tracks
              then capacity
              else capacity -ℤ allocated.1.bandwidth_requested)
            ts
      some (allocated.0 ∷ rest.0, rest.1))

unfoldable pub managed : List Track → List Track
managed [] = []
managed (t ∷ ts) = if t.is_managed then t ∷ managed ts else managed ts

-- The forwarders of the tracks that are not managed, and of those that are
unfoldable pub allocate_all_tracks :
    (List Track → List Track) → Params → List Track → Option (List State × List State)
allocate_all_tracks sort s tracks = do
  exempt ← allocate_unmanaged s (get_available_channel_capacity s true) tracks
  shared ← allocate_managed s.allow_pause (max_ℤ (pos 0) exempt.1) (sort (managed tracks))
  some (exempt.0, shared)
