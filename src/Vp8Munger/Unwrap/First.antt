-- ===== src/Vp8Munger/Unwrap/First.antt =====
-- pkg/sfu/codecmunger/vp8.go: the first picture id after `Init` is not changed by `Unwrap`.
use voicekit.Prelude.{ℕ, ◌^◌, ◌<◌, ◌≡◌, Bool, true, false, arith, if◌then◌else◌}
use voicekit.Vp8Munger.Unwrap.{init, unwrap, sub32}

pub unwrap-init :
    (id : ℕ) (m : Bool)
    → id < (if m then 2 ^ 15 else 2 ^ 7)
    → unwrap (init (sub32 id 1) m) id m ≡ (init (sub32 id 1) m, id)
unfolding unwrap init
unwrap-init id true h = ground arith
unwrap-init id false h = ground arith
