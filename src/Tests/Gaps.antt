-- ===== src/Tests/Gaps.antt =====
-- The theorems on the gap analysis and on overlapping siblings, at pools of one parent.
use cloudpam.Base.{ℕ, String, ◌⊎◌, ◌≡◌, ◌↔◌, refl, arith, [], ◌∷◌, some, none, List, Any}
use cloudpam.Net.Ip.{Prefix}
use cloudpam.Net.Ip.Block.{In}
use cloudpam.Net.Cidr.{Netip}
use cloudpam.Domain.{Pool}
use cloudpam.Planning.Compliance.{ComplianceReport, empty_report, check_overlap}
use cloudpam.Planning.Compliance.Siblings.{Clashes, check_overlap-clash}
use cloudpam.Planning.Gaps.{available_blocks}
use cloudpam.Planning.Gaps.Available.{Fits, Holds, available_blocks-free}

-- A netip that reads every text as 10.0.1.0/24
abbrev child_netip : Netip
child_netip = record { parse_prefix = λ s. some (Prefix.v4 0x0a00_0100 24); parse_addr = λ s. none }

abbrev child : Pool
child = record {
  id = 2;
  name = "child";
  cidr = "10.0.1.0/24";
  parent_id = some 1;
  account_id = none;
  type = "subnet";
  status = "active";
  source = "manual";
  description = "";
  tags = none;
  created_at = 1;
  updated_at = 1;
  deleted_at = none;
}

child-Fits : Fits child_netip 0x0a00_0000 23 child
child-Fits = record {
  addr = 0x0a00_0100;
  len = 24;
  parsed = refl;
  prefix = (omega arith, omega arith);
  from = omega arith;
  to = omega arith;
}

available_blocks-free_example :
    (ps : List Prefix) × (available_blocks child_netip (Prefix.v4 0x0a00_0000 23) (child ∷ [])
      ≡ some ps)
    × ((z : ℕ)
        → Any (λ p. In p z) ps ↔ (
            In (Prefix.v4 0x0a00_0000 23) z
            × ¬ (Any (Holds child_netip 0x0a00_0000 23 z) (child ∷ []))))
available_blocks-free_example =
    available_blocks-free child_netip 0x0a00_0000 23 (child ∷ []) (omega arith, omega arith)
      (child-Fits, tt)

abbrev twin : Pool
twin = record child { id = 3 }

abbrev as_is : String → String
as_is s = s

check_overlap-clash_example :
    (after : ComplianceReport) × (check_overlap child_netip as_is child (twin ∷ []) empty_report
      ≡ some after)
    × (after.total_checks ≡ 1)
    × (((after.failed ≡ 1)
          × Any (Clashes child_netip as_is child (Prefix.v4 0x0a00_0100 24)) (twin ∷ []))
        ⊎ ((after.failed ≡ 0)
            × ¬ (Any (Clashes child_netip as_is child (Prefix.v4 0x0a00_0100 24)) (twin ∷ []))))
check_overlap-clash_example =
    check_overlap-clash child_netip as_is child 1 0x0a00_0100 24 (twin ∷ []) empty_report refl refl
      (omega arith, omega arith) ((0x0a00_0100, 24, refl, (omega arith, omega arith)), tt)
