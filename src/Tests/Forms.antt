-- ===== src/Tests/Forms.antt =====
-- The steps of the wizard that "Next" leaves.
use makoon.Prelude.{◌≤◌, ◌≡◌, ◌↔◌, false, All, length, units}
use makoon.Creator.{SettingsModel, master_nodes}
use makoon.Wizard.{nodes_step_disabled}
use makoon.Wizard.Forms.{IsComplete, nodes_step_disabled-All}
use makoon.Tests.Data.{two_nodes, page}

nodes_step_disabled-All_example :
    (nodes_step_disabled page.creator ≡ false)
    ↔ ((1 ≤ length (master_nodes page.creator)) × All IsComplete two_nodes)
nodes_step_disabled-All_example = nodes_step_disabled-All page.creator

abbrev filled : SettingsModel
filled = record {
  node = units "pve";
  os_image = units "jammy";
  os_image_storage = units "local";
  kube_version = units "1.27";
}
