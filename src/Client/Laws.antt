-- ===== src/Client/Laws.antt =====
-- How the figures that a new client reports agree with its jitter buffer.
use fastvid.Common.{◌≡◌, ◌≢◌, refl, ap, get_or, arith}
use fastvid.Float.{Double}
use fastvid.Text.{codes}
use fastvid.Jitter.{Quality, excellent, good, fair, poor, JitterBuffer, quality_name}
use fastvid.Jitter.Buffer
use fastvid.Jitter.Buffer.Queries.{active_mode_name, network_quality_name}
use fastvid.Client.{create_client}

excellend-ne : (q : Quality) → codes "excellend" ≢ quality_name q
excellend-ne excellent e = let letter = ap (λ t. get_or t 8 0) e in omega arith
excellend-ne good e = let letter = ap (λ t. get_or t 0 0) e in omega arith
excellend-ne fair e = let letter = ap (λ t. get_or t 0 0) e in omega arith
excellend-ne poor e = let letter = ap (λ t. get_or t 0 0) e in omega arith

-- The figures of a new client name the mode of its jitter buffer, but the quality that they name is
-- none that `network_quality_name` returns for a jitter buffer in any state.
create_client-names :
    {W : Type 0} ⦃d : Double W⦄ (garbage : Quality) (b : JitterBuffer W)
    → let c = create_client {W = W} garbage in
      (c.udp_receive_stats.jitter_buffer_active_mode ≡ active_mode_name c.adaptive_jitter)
      × (c.udp_receive_stats.jitter_buffer_quality ≢ network_quality_name b)
unfolding create_client Buffer.create active_mode_name network_quality_name
create_client-names garbage b = (refl, excellend-ne b.network_quality)
