-- ===== src/Internal.antt =====
-- sclient/src/modules/network/StreamClientInternal.h: the helpers of the stream client.
pub mod Xor
pub mod Parity
mod Tests
use fastvid.Common.{
  ℕ, zero, suc, ◌+◌, ◌-◌, ◌*◌, Bool, true, false, not, ◌&&◌, Option, none, some, List, [], ◌∷◌,
  ◌++◌, length, get_elem?, set, replicate, ltb, ◌==◌, if◌then◌else◌,
}
use Prim.Native.Nat.{bit_xor}
use fastvid.Common.Words.{u64}
use fastvid.Protocol.{FrameDiagnosticMetaData}

-- `kUdpAssemblyTimeoutNs` and `kRecentCompletedUdpSequenceWindow`
abbrev pub assembly_timeout_ns : ℕ
assembly_timeout_ns = 250 * 1000 * 1000

abbrev pub recent_completed_window : ℕ
recent_completed_window = 1024

-- `BuildSocketError`. What `strerror` says of the current `errno` is the C library's.
pub build_socket_error : (strerror : ℕ → List ℕ) → ℕ → List ℕ → List ℕ
build_socket_error strerror errno message = message ++ (b':' ∷ b' ' ∷ strerror errno)

-- `MonotonicNowNs` on the reading `tv_sec`, `tv_nsec` of the clock.
unfoldable pub monotonic_now_ns : ℕ → ℕ → ℕ
monotonic_now_ns tv_sec tv_nsec = u64 (u64 (u64 tv_sec * 1000000000) + u64 tv_nsec)

pub has_sender_latency_metadata : FrameDiagnosticMetaData → Bool
has_sender_latency_metadata m =
    not (m.capture_timestamp_ns == 0) && not (m.transport_send_timestamp_ns == 0)

-- The loop of XorInto from `index` on, with `left` rounds to go. `none` is an access out of range.
pub xor_loop : ℕ → ℕ → List ℕ → List ℕ → Option (List ℕ)
xor_loop zero index source target = some target
xor_loop (suc left) index source target = elim (get_elem? source index) [
  | none ↦ none
  | some s ↦ elim (get_elem? target index) [
    | none ↦ none
    | some t ↦ xor_loop left (index + 1) source (set target index (bit_xor t s))
  ]
]

-- `target->resize(length, 0)` where it is shorter.
pub grow : ℕ → List ℕ → List ℕ
grow n target = if ltb (length target) n then target ++ replicate (n - length target) 0 else target

-- XorInto: what `target` points to afterwards. A null pointer is an inner `none`, and the outer one
-- is an access out of range.
pub xor_into : Option (List ℕ) → Option (List ℕ) → ℕ → Option (Option (List ℕ))
unfolding grow
xor_into none source n = some none
xor_into (some target) none n = some (some target)
xor_into (some target) (some source) n =
    if n == 0
    then some (some target)
    else (elim (xor_loop n 0 source (grow n target)) [ none ↦ none | some out ↦ some (some out) ])
