-- ===== src/Lib.antt =====
-- Verification of the media plane of voicekit, a WebRTC server in Go.
--
-- A server forwards the RTP packets of a publisher to each subscriber. Between the two it drops
-- packets (layers that the subscriber does not get, probes), inserts padding and switches streams, and
-- yet each subscriber has to see consecutive sequence numbers, codec headers without holes and answers
-- to its requests for lost packets. The modules here are
-- the parts that keep these numbers, and those that choose the layers that a subscriber gets.
--
-- Parts, and how they interact:
--   WrapAround (pkg/sfu/utils/wraparound.go) extends 16-bit and 32-bit counters to 64 bits. The
--     counters' extended values are the keys of all that follows.
--   RangeMap (pkg/sfu/utils/rangemap.go) maps keys to the number of keys that were excluded before
--     them, and remembers a bounded number of ranges.
--   RtpMunger (pkg/sfu/rtpmunger.go) gives forwarded packets their outgoing sequence numbers and
--     timestamps. It excludes dropped packets from a RangeMap and looks late packets up in it.
--   Sequencer (pkg/sfu/sequencer.go) keeps what was sent in a ring of slots, to answer NACKs. It
--     excludes padding from a RangeMap of its own, so that padding takes no slots.
--   Vp8Header (pkg/sfu/buffer/helpers.go) reads and writes the VP8 payload descriptor, which changes
--     its size with the picture id.
--   Vp8Munger (pkg/sfu/codecmunger/vp8.go) renumbers the pictures of forwarded VP8 packets and writes
--     their descriptors by Vp8Header. The ordered map of its caches is third-party code and a parameter,
--     the record OrderedMap of the operations that are called.
--   KeyFrame (pkg/sfu/buffer/helpers.go) tells whether an H.264, H.265 or AV1 payload starts a key
--     frame. Its reads are checked: a read past the end is the outcome `panics`.
--   Red (pkg/sfu/redreceiver.go, pkg/sfu/redprimaryreceiver.go) encodes and decodes redundant audio.
--   VideoLayer (pkg/sfu/buffer/videolayer.go) and LayerSelector (pkg/sfu/videolayerselector) decide
--     which packets of a layered video stream are forwarded: base.go, simulcast.go, vp9.go and
--     temporallayerselector/vp8.go. What is not selected, RtpMunger drops.
--   Dynacast (pkg/rtc/dynacast/dynacastquality.go) computes the quality that a publisher has to send.
--   Bitrates, Forwarder (pkg/sfu/forwarder.go) decide which layer of a track is aimed at. Bitrates has
--     the array of measured bitrates and the searches in it; an index out of the array is a panic, the
--     result `none`. Forwarder.Optimal, Forwarder.Provisional, Forwarder.Commit, Forwarder.Boost and
--     Forwarder.Weighted have the methods; float32 is a parameter of the last; the state holds the Base
--     of LayerSelector, whose target they set.
--   StreamAllocator (pkg/sfu/streamallocator/streamallocator.go) shares the capacity of a channel among
--     the forwarders of a subscriber's tracks, layer by layer.
--   PacketDeduper (pkg/rtc/user_packet_deduper.go) remembers the last hundred identifiers of packets.
--   Translation (pkg/sfu/forwarder.go) translates the packets of a track: GetTranslationParams asks the
--     layer selector, RtpMunger and the codec munger, and switches from one stream to another. The record
--     Parts has the interfaces that it calls and what it needs of NTP times and of float64; what the
--     statistics of the stream answer at the time of a packet stands in the packet. What rand.Intn draws
--     for the first numbers is an argument. Translation.Others has the methods that give out no
--     number but change what packets are translated with: Restart, SetRefSenderReport and GetPadding.
--   FrameIntegrity (pkg/sfu/buffer/frameintegrity.go) keeps which packets came as a ring of bits, and
--     which frames are whole.
--   PlayoutDelay (pkg/sfu/rtpextension/playoutdelay) writes and reads the header extension with the delays
--     of a player.
--   Prelude has the shared tests, list functions, machine words and signed integers.
-- Each part is a file with the state and the operations, and a folder with the proofs; Examples has the
-- tests and the theorems at concrete inputs. Methods are functions in snake case under the methods'
-- names: UpdateAndGetSnTs is `update_and_get_sn_ts`. A method that changes its receiver takes the state
-- and returns the new one; an error is a constructor of the part's result type.
--
-- Numbers are natural numbers. Unsigned machine integers wrap by an explicit remainder (`add64`,
-- `sub64`, `% u16_mod`), and a test for a negative int64 is `is_negative64`. Where a theorem needs
-- extended numbers to be far from the end of the 64-bit range, this is a hypothesis: 2 ^ 62 packets are
-- not sent in any session. The loops of the source are recursion on the number of their rounds, which
-- the source computes before it starts (the length of a padding run, the size of the sequencer), or
-- recursion on the list that they run over; the loop that trims a cache has the cache's size for its
-- rounds, since each round deletes an entry, and the scans for key frames have the payload's length, or
-- four rounds for the OBUs that a two-bit count allows; the walk round the words of a packet history has
-- one round more than there are words. There is no other fuel.
--
-- Locks are left out: each operation holds its object's lock from its start to its end, so that a
-- sequence of calls is a sequence of steps. Log calls and debug output are left out.
--
-- Not modelled: rooms, signalling, services, telemetry and the estimators of bandwidth and quality,
-- which are input and output, callbacks of the WebRTC library, timers or floating point; and the other
-- layer selectors and the other header extensions beside the parts above.
pub mod Prelude
pub mod WrapAround
pub mod RangeMap
pub mod RtpMunger
pub mod Sequencer
pub mod Vp8Header
pub mod Vp8Munger
pub mod KeyFrame
pub mod Red
pub mod VideoLayer
pub mod LayerSelector
pub mod Dynacast
pub mod Bitrates
pub mod Forwarder
pub mod StreamAllocator
pub mod PacketDeduper
pub mod FrameIntegrity
pub mod Translation
pub mod PlayoutDelay
