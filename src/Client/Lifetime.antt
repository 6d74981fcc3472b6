-- ===== src/Client/Lifetime.antt =====
-- The end of a client and of its snapshot guard, and `Connect`. The functions that they call, `Close` and
-- `PublishUdpReceiveStatsSnapshot`, have no body in the repository: they are parameters, which work on
-- the store `S` that the pointers `P` point into.
use fastvid.Common.{Bool, Option, none, some}
use fastvid.Client.{StreamClient}
use fastvid.Client.Types.{ClientConfig}

-- `UdpStatsSnapshotGuard`, with the pointer that it keeps. A null pointer is `none`.
record UdpStatsSnapshotGuard (P : Type 0) : Type 0 where
  client : Option P

-- Its constructor.
create_guard : {P : Type 0} → Option P → UdpStatsSnapshotGuard P
create_guard client = record { client = client }

-- Its destructor.
destroy_guard : {P S : Type 0} → (publish : P → S → S) → UdpStatsSnapshotGuard P → S → S
destroy_guard publish guard s = elim guard.client [ none ↦ s | some client ↦ publish client s ]

-- `~StreamClient`
destroy_client : {P S : Type 0} → (close : P → S → S) → P → S → S
destroy_client close client s = close client s

-- `Connect`: the function returns a bool, and its body is empty. To flow off its end is undefined, so
-- there is no result.
connect : {W : Type 0} → ClientConfig W → StreamClient W → Option (Bool × StreamClient W)
connect config client = none
