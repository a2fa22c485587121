-- ===== src/Lib.antt =====
-- A model of dashplay-rs, a client of MPEG-DASH: the controller of a playback session
-- (src/playback_control.rs, src/clock/latency_control.rs), the quality ladder that a user's
-- constraints leave (src/abr/constraints.rs), the rule on dropped frames
-- (src/abr/dropped_frames.rs), the extraction of CMAF chunks from a low-latency segment (src/mp4),
-- the renewal of Widevine licenses (src/drm), the record of emitted fragments
-- (src/delivered_segments.rs), segment indexes (src/manifest/sidx) and how they are fetched
-- (src/schedule/segment_fetch.rs), the expansion of segment timelines
-- (src/manifest/timeline/mod.rs) and of URL templates (src/manifest/template.rs), and the retries
-- of a request (src/http/retry.rs).
--
-- How the parts interact. The scheduler reports each media segment to the controller, which moves
-- the media clock, detects stalls, applies pauses, seeks and selections, and tells fetches in
-- flight by a generation counter that they are cancelled. The constraints of the controller decide
-- which rungs of the ladder the bitrate logic may choose. The accumulator turns the body of a
-- segment into moof/mdat fragments, chunk by chunk. The fetch of an index asks for more bytes
-- until the index is complete, and turns it into segments. The coordinator of licenses polls the
-- renewal state of each session and applies what the license server answers.
--
-- - Prelude: the libraries' names, Boolean tests on native numbers, lists and results. Bytes: byte
--   strings and big-endian integers. Time: Durations and Instants as nanoseconds, with the
--   saturating operations. Float: what the controller needs of f64, as a record of operations
--   without laws, so that what is proved holds for any rounding; a theorem that needs a law takes
--   it as a hypothesis. Duration::from_secs_f64 panics on a number that no Duration holds; there
--   the model leaves the session as it is when the method panics. Float.Ticks is the instance of
--   the examples.
-- - Playback.State to Playback.Catchup: src/playback_control.rs. Session is Inner; each method is
--   a function from the session to its answer and the session after it. Latency is
--   src/clock/latency_control.rs. Steps is the relation of all calls in any order; Consistency and
--   its children the invariant; Commands, Delivery, Ends, Effects and Stall the behaviour of the
--   operations.
-- - Abr.Constraints: src/abr/constraints.rs; Abr.Ladder what is left of a ladder.
--   Abr.DroppedFrames: src/abr/dropped_frames.rs, with what its cap says (Cap) and which frames it
--   counts (Accounting); the HashMap is a list in the order of its keys.
-- - Mp4.Header: src/mp4/box_.rs. Mp4.Chunks: CmafChunkAccumulator of src/mp4/partial_segment.rs
--   and the loop that feeds it. Mp4.Wire describes the stream on its own: boxes, their encoding,
--   and the fragments of a list of boxes. Prefix, Rounds, Pairs, Fragments and Searching go from
--   reading a header to one call; Draining to all that a buffer holds, and Body to a whole body in
--   chunks; Large is about boxes with a 64-bit size.
-- - Drm.Policy: src/drm/renewal/policy.rs. Drm.Renewal: src/drm/renewal/state.rs, with its
--   deadlines, what is due, and KEY_CONTROL blocks. Drm.License.Rebuild: the loop of
--   rebuild_processor in src/drm/widevine.rs around a third-party builder. Drm.License:
--   src/drm/widevine.rs and a session's turn in poll_renewals of src/drm/coordinator.rs, with its
--   keys, its decryptor and its expiry.
-- - Manifest.Types, Manifest.Ranges: src/manifest/types.rs and src/manifest/error.rs.
--   Manifest.Sidx.Parser: src/manifest/sidx/parser.rs. Manifest.Sidx.Locate, Expand and Load:
--   src/manifest/sidx/mod.rs, the scan for the box, the expansion of boxes within boxes, and the
--   entry points. Wire describes the box and its bytes on its own, RoundTrip is about reading
--   them; Scanning and Passing are about the scan, Layout about the expansion, Scanned about a
--   range that is scanned, and Loading about an index range as a whole, exact or not.
-- - Manifest.Timeline: src/manifest/timeline/mod.rs, with its context in src/manifest/types.rs.
--   Explicit is segments_from_explicit_timeline, Window the time-shift window, Template
--   SegmentTemplate@duration, Sources SegmentList, SegmentBase and the choice between them.
--   Repeats is about entries with a repeat count, Limits about the expansion limit, Chains and
--   Contiguous about entries without gaps, Negative about negative repeat counts, Numbers and
--   EndNumber about segment numbers.
-- - Manifest.Template: src/manifest/template.rs, with strings as their bytes. Pieces describes a
--   template on its own, as a list of pieces.
-- - Schedule.IndexFetch: the loop of fetch_and_parse_segment_base_index in
--   src/schedule/segment_fetch.rs. Asking is about what a parse of part of an index asks for,
--   Rounds about one round with a server that has the file, Completing and Skipping about the
--   whole fetch of an index whose range is not exact.
-- - Delivered: src/delivered_segments.rs, the tracker of emitted fragments. The loop over the
--   start index recurs on the segments behind it.
-- - Http.Retry: src/http/retry.rs, its configuration and policy, and the loop of tries.
-- Each part has a module Examples with runs at concrete inputs.
--
-- Numbers. A u64 or usize that the code can overflow keeps its wrap-around or its saturation (the
-- seek generation, the cancel counter, box sizes, attempt counts, segment numbers). A sum of
-- Durations by `+` is a plain sum, since Duration::MAX is some 584 billion years. Instants that
-- have no earlier one are counted from the earliest; the latest is a parameter.
--
-- Fuel. The search of the accumulator and the draining of fragments are loops that a wrapped sum
-- can keep from ending, so they run on fuel; a stream needs one more than it has boxes. The scan
-- for a sidx needs one more than it passes boxes, and gets one more than there are bytes; the
-- fetch of an index runs on fuel too, and three rounds are enough where the index begins the
-- range. The interpolation of a template needs one round more than it has pieces. A negative S@r
-- repeats on fuel as well; the expansion limit of the code, a million segments, makes one more
-- than that enough. The nesting of index boxes is bounded by the code, at 33 levels. The loop of
-- tries runs on fuel too, and needs as much as the policy allows tries.
--
-- Not modelled: the channels that publish a change, sleeping, locks that are poisoned, tasks that
-- run between two locks of one method (each method is one step), the requests themselves, and what
-- third-party crates compute: decryption, the CDM and protobuf messages are parameters. The
-- manifest but for its segment indexes, timelines and URL templates (addressing, periods,
-- updates), the segment fetcher, the scheduler but for the fetch of an index, bitrate heuristics,
-- track selection and CMCD are not modelled.
pub mod Prelude
pub mod Float
pub mod Time
pub mod Bytes
pub mod Drm
pub mod Http
pub mod Mp4
pub mod Manifest
pub mod Schedule
pub mod Delivered
pub mod Abr
pub mod Playback
