-- ===== src/Gic/Distributor/WellFormed.antt =====
-- The shape of the distributor's banks: one banked register, or row of registers, for each node, and
-- shared banks of fixed sizes.
pub mod Banks
pub mod Writes
pub mod Handle
pub mod Reset
use icecap.Base.{ℕ, ◌≤◌, ◌≡◌, List, map, replicate, length}
use icecap.Gic.Distributor.{Distributor}

pub record IsWellFormed (d : Distributor) : Type 0 where
  pub few_nodes : d.num_nodes ≤ 8
  pub length_irq_group0 : length d.irq_group0 ≡ d.num_nodes
  pub length_irq_group : length d.irq_group ≡ 31
  pub length_enable0 : length d.enable0 ≡ d.num_nodes
  pub length_enable : length d.enable ≡ 31
  pub length_pending0 : length d.pending0 ≡ d.num_nodes
  pub length_pending : length d.pending ≡ 31
  pub length_active0 : length d.active0 ≡ d.num_nodes
  pub length_active : length d.active ≡ 31
  pub length_priority : length d.priority ≡ 247
  pub length_targets : length d.targets ≡ 247
  pub length_config1 : length d.config1 ≡ d.num_nodes
  pub length_config : length d.config ≡ 62
  pub length_periph_id : length d.periph_id ≡ 12
  pub length_component_id : length d.component_id ≡ 4
  pub rows_priority0 : map length d.priority0 ≡ replicate d.num_nodes 8
  pub rows_targets0 : map length d.targets0 ≡ replicate d.num_nodes 8
  pub rows_sgi_pending : map length d.sgi_pending ≡ replicate d.num_nodes 4
