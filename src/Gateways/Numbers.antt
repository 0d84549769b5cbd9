-- ===== src/Gateways/Numbers.antt =====
-- calculateGatewayNumber of service/worker_slice_gateway_service.go.
pub mod Unique
use kubeslice_controller.Common.{ℕ, zero, suc, ◌+◌, ◌-◌, ◌*◌, ◌/◌, ltb, ◌=?◌, if◌then◌else◌}

-- (maximum-1)*(maximum-2) over the integers, for a maximum that is not negative.
abbrev product_below : ℕ → ℕ
product_below maximum = if maximum =? 0 then 2 else (maximum - 1) * (maximum - 2)

unfoldable pub calculate_gateway_number : ℕ → ℕ → ℕ
calculate_gateway_number cluster1_ins cluster2_ins =
    if ltb cluster1_ins cluster2_ins
    then product_below cluster2_ins / 2 + cluster1_ins
    else product_below cluster1_ins / 2 + cluster2_ins
