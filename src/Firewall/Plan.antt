-- ===== src/Firewall/Plan.antt =====
-- `root_of_trust_firewall_validate`: both phases, and their comparison.
use ansible_collection_found.Base.{
  ℕ, String, ◌<>◌, Bool, true, false, not, ◌&&◌, ◌==◌, Option, some, [], ◌∷◌, length, any, select,
  nat_eq,
}
use ansible_collection_found.Base.Result.{Result, ok, ◌>>=◌, ◌>>◌, refuse}
use ansible_collection_found.Base.Value.{Value, Fields, bool, get, is_str}
use ansible_collection_found.Firewall.Order.{Signature, signatures_eq}
use ansible_collection_found.Firewall.Checks.{
  Net, unsafe, require_mapping, require_exact_keys, require_ipv4_address, require_ipv4_host_cidr,
  validate_output,
}
use ansible_collection_found.Firewall.Rules.{Summary, classify_input_rules}

pub record Verdict : Type 0 where
  pub bootstrap_rule_count : ℕ
  pub controller_ipv4_cidr : String
  pub hardened_rule_count : ℕ
  pub output_rule_count : ℕ
  pub tang_source_count : ℕ
  pub validated : Bool

-- `value is True`
abbrev pub is_true : Option Value → Bool
is_true (some (bool b)) = b
is_true _ = false

-- `("dst_port", "22") not in signature`
abbrev pub without_ssh22 : Signature → Bool
without_ssh22 sig = not (any (λ f. f.0 == "dst_port" && f.1 == "22") sig)

module _ (net : Net) (decimal : ℕ → String) where
  unfoldable pub validate_phase : Fields → String → String → String → Result Summary
  validate_phase firewall phase target_ipv4 controller_ipv4_cidr = do
    declaration ← require_mapping (get firewall phase) (phase <> " phase")
    require_exact_keys declaration ("input" ∷ "output" ∷ []) (phase <> " phase")
    validate_output (get declaration "output") phase
    classify_input_rules net decimal phase target_ipv4 controller_ipv4_cidr
        (get declaration "input")

  -- The switches of the provider's firewall.
  unfoldable pub check_switches : Fields → Result (Unit {0})
  check_switches firewall = do
    refuse (not (is_true (get firewall "enabled"))) (unsafe "provider firewall must be enabled")
    refuse (not (is_str "main" (get firewall "port")))
        (unsafe "provider firewall must protect the main interface")
    refuse (not (is_true (get firewall "filter_ipv6")))
        (unsafe "provider IPv6 filtering must be enabled")
    refuse (not (is_true (get firewall "allowlist_hos")))
        (unsafe "Hetzner services allowlisting must be enabled")

  unfoldable pub compare_phases : Summary → Summary → String → Result Verdict
  compare_phases bootstrap hardened controller = do
    refuse (not (nat_eq bootstrap.rule_count 8))
        (unsafe "bootstrap input must contain exactly eight rules")
    refuse (not (nat_eq hardened.rule_count 10))
        (unsafe "hardened input must contain exactly ten rules")
    refuse
        (not
          (signatures_eq (select without_ssh22 bootstrap.base_signatures) hardened.base_signatures))
        (unsafe "hardened base policy must equal bootstrap with TCP 22 removed")
    ok (record {
      bootstrap_rule_count = bootstrap.rule_count;
      controller_ipv4_cidr = controller;
      hardened_rule_count = hardened.rule_count;
      output_rule_count = 1;
      tang_source_count = length hardened.tang_sources;
      validated = true;
    })

  unfoldable pub root_of_trust_firewall_validate : Value → Value → Value → Result Verdict
  root_of_trust_firewall_validate plan target controller_cidr = do
    firewall ← require_mapping (some plan) "firewall"
    require_exact_keys firewall
        ("allowlist_hos" ∷ "bootstrap" ∷ "enabled" ∷ "filter_ipv6" ∷ "hardened" ∷ "port" ∷ [])
        "firewall"
    target_ipv4 ← require_ipv4_address net (some target) "target IPv4"
    controller ← require_ipv4_host_cidr net (some controller_cidr) "controller source"
    refuse (controller == target_ipv4 <> "/32")
        (unsafe "controller source must be separate from the target")
    check_switches firewall
    bootstrap ← validate_phase firewall "bootstrap" target_ipv4 controller
    hardened ← validate_phase firewall "hardened" target_ipv4 controller
    compare_phases bootstrap hardened controller
