-- ===== src/Planning/Compliance.antt =====
-- internal/planning/compliance.go: the checks of pools against rules. `none` is a panic, that of
-- `As4` on an IPv6 prefix. `netip` parses prefixes, `quote` is the verb %q.
pub mod Siblings
use Prim.Native.String.{◌++◌ as concat}
use cloudpam.Base.{
  ℕ, ◌+◌, ◌-◌, String, Bool, true, false, not, ◌&&◌, ◌||◌, Option, none, some, List, [], ◌∷◌, ◌++◌,
  ◌==◌, str_eq, if◌then◌else◌,
}
use cloudpam.Net.Ip.{Prefix, masked}
use cloudpam.Net.Cidr.{Netip}
use cloudpam.Domain.{Pool}
use cloudpam.Planning.Cidrs.{prefixes_overlap, is_rfc1918}
use cloudpam.Storage.Memory.{MemoryStore, Result, ok, err, err_not_found, get_pool_children}
use cloudpam.Planning.Resolve.{resolve_pools}

pub record ComplianceViolation : Type 0 where
  pub rule_id : String
  pub severity : String
  pub pool_id : ℕ
  pub pool_name : String
  pub cidr : String
  pub message : String
  pub remediation : String

pub record ComplianceReport : Type 0 where
  pub total_checks : ℕ
  pub passed : ℕ
  pub failed : ℕ
  pub warnings : ℕ
  pub violations : List ComplianceViolation

abbrev pub empty_report : ComplianceReport
empty_report = record { total_checks = 0; passed = 0; failed = 0; warnings = 0; violations = [] }

abbrev pub violation : Pool → String → String → String → String → ComplianceViolation
violation pool rule severity message remediation = record {
  rule_id = rule;
  severity = severity;
  pool_id = pool.id;
  pool_name = pool.name;
  cidr = pool.cidr;
  message = message;
  remediation = remediation;
}

-- The changes of a report
abbrev pub counted : ComplianceReport → ComplianceReport
counted report = record report { total_checks = report.total_checks + 1 }

abbrev pub failing : ComplianceViolation → ComplianceReport → ComplianceReport
failing v report = record report {
  failed = report.failed + 1;
  violations = report.violations ++ (v ∷ []);
}

abbrev pub warned : ComplianceViolation → ComplianceReport → ComplianceReport
warned v report = record report {
  warnings = report.warnings + 1;
  violations = report.violations ++ (v ∷ []);
}

abbrev pub noted : ComplianceViolation → ComplianceReport → ComplianceReport
noted v report = record report { violations = report.violations ++ (v ∷ []) }

abbrev pub same_parent : Option ℕ → Option ℕ → Bool
same_parent (some a) (some b) = a == b
same_parent _ _ = false

-- A pool of the same parent with another id
abbrev pub is_sibling : Pool → Pool → Bool
is_sibling pool other = not (other.id == pool.id) && same_parent other.parent_id pool.parent_id

-- What the search for an overlapping sibling ends with
pub data Overlap : Type 0 where
  crashed free : Overlap
  overlaps : Pool → Overlap

abbrev pub overlap_of : Option Prefix → Option Prefix → Option Bool
overlap_of (some a) (some b) = prefixes_overlap (masked a) (masked b)
overlap_of _ _ = some false

abbrev pub first_overlap : Option Bool → Pool → Overlap → Overlap
first_overlap none other rest = crashed
first_overlap (some true) other rest = overlaps other
first_overlap (some false) other rest = rest

module _ (netip : Netip) (quote : String → String) where
  -- The loop of checkOverlap
  unfoldable pub find_overlap : Pool → List Pool → Overlap
  unfolding prefixes_overlap
  find_overlap pool [] = free
  find_overlap pool (other ∷ pools) =
      let rest = find_overlap pool pools in
      if is_sibling pool other
      then first_overlap (overlap_of (netip.parse_prefix pool.cidr) (netip.parse_prefix other.cidr))
          other rest
      else rest

  -- What checkOverlap reports
  abbrev pub overlap_violation : Pool → Pool → ComplianceViolation
  overlap_violation pool other =
      violation pool "OVERLAP-001" "error"
        (concat "overlaps with sibling "
          (concat (quote other.name) (concat " (" (concat other.cidr ")"))))
        "Remove or resize one of the overlapping pools"

  -- A pool without a parent is only counted.
  abbrev pub overlap_result : Pool → Option ℕ → Overlap → ComplianceReport → Option ComplianceReport
  overlap_result pool none found report = some (counted report)
  overlap_result pool (some parent) crashed report = none
  overlap_result pool (some parent) free report = some (counted report)
  overlap_result pool (some parent) (overlaps other) report =
      some (failing (overlap_violation pool other) (counted report))

  -- checkOverlap
  unfoldable pub check_overlap : Pool → List Pool → ComplianceReport → Option ComplianceReport
  unfolding find_overlap
  check_overlap pool pools report =
      overlap_result pool pool.parent_id (find_overlap pool pools) report

  abbrev pub private_or_warned : Pool → Option Bool → ComplianceReport → Option ComplianceReport
  private_or_warned pool none report = none
  private_or_warned pool (some true) report = some report
  private_or_warned pool (some false) report = some (
      warned
        (violation pool "RFC1918-001" "warning" "pool uses non-RFC1918 address space"
          "Verify this is intentional; private infrastructure typically uses 10/8, 172.16/12, or 192.168/16")
        report)

  -- checkRFC1918
  unfoldable pub check_rfc1918 : Pool → ComplianceReport → Option ComplianceReport
  unfolding is_rfc1918
  check_rfc1918 pool report = elim (netip.parse_prefix pool.cidr) [
    | none ↦ some (counted report)
    | some p ↦ private_or_warned pool (is_rfc1918 (masked p)) (counted report)
  ]

  abbrev pub is_parent_type : String → Bool
  is_parent_type type =
      str_eq type "supernet"
      || (str_eq type "region" || (str_eq type "environment" || str_eq type "vpc"))

  abbrev pub is_empty : List Pool → Bool
  is_empty [] = true
  is_empty (p ∷ ps) = false

  -- checkEmpty
  unfoldable pub check_empty : MemoryStore → Pool → ComplianceReport → ComplianceReport
  unfolding get_pool_children
  check_empty m pool report = elim (get_pool_children pool.id m) [
    | err e ↦ counted report
    | ok children ↦
        if is_parent_type pool.type && is_empty children
        then warned
            (violation pool "EMPTY-001" "warning"
              (concat "pool of type " (concat (quote pool.type) " has no child allocations"))
              "Add child pools or change the pool type to 'subnet'")
            (counted report)
        else counted report
  ]

  -- checkNaming
  unfoldable pub check_naming : Pool → ComplianceReport → ComplianceReport
  check_naming pool report =
      let named =
        if str_eq pool.name ""
        then warned (violation pool "NAME-001" "info" "pool has no name" "") (counted report)
        else counted report in
      if str_eq pool.description ""
      then noted (violation pool "NAME-002" "info" "pool has no description" "") (counted named)
      else counted named

  abbrev pub after_rfc1918 : MemoryStore → Pool → Option ComplianceReport → Option ComplianceReport
  after_rfc1918 m pool none = none
  after_rfc1918 m pool (some report) = some (check_naming pool (check_empty m pool report))

  abbrev pub after_overlap : MemoryStore → Pool → Option ComplianceReport → Option ComplianceReport
  after_overlap m pool none = none
  after_overlap m pool (some report) = after_rfc1918 m pool (check_rfc1918 pool report)

  -- The loop of CheckCompliance over the resolved pools
  unfoldable pub check_all :
      MemoryStore → List Pool → List Pool → ComplianceReport → Option ComplianceReport
  unfolding check_overlap check_rfc1918 check_empty check_naming
  check_all m all [] report = some report
  check_all m all (pool ∷ pools) report =
      elim (after_overlap m pool (check_overlap pool all report)) [
        | none ↦ none
        | some next ↦ check_all m all pools next
      ]

  abbrev pub passed_counted : Option ComplianceReport → Option ComplianceReport
  passed_counted none = none
  passed_counted (some report) =
      some (record report { passed = report.total_checks - report.failed - report.warnings })

  -- CheckCompliance, on the pools that resolvePools returns
  unfoldable pub check_resolved : MemoryStore → List Pool → Option ComplianceReport
  unfolding check_all
  check_resolved m pools = passed_counted (check_all m pools pools empty_report)

  -- CheckCompliance
  unfoldable pub check_compliance : List ℕ → Bool → MemoryStore → Option (Result ComplianceReport)
  unfolding resolve_pools check_resolved
  check_compliance ids include_children m = elim (resolve_pools ids include_children m) [
    | none ↦ some (err err_not_found)
    | some pools ↦ elim (check_resolved m pools) [ none ↦ none | some report ↦ some (ok report) ]
  ]
