-- ===== src/Firewall/Rules.antt =====
-- `_classify_input_rules`: each rule has one of the approved meanings, and each meaning its count.
use ansible_collection_found.Base.{
  ℕ, suc, String, ◌<>◌, Bool, not, ◌&&◌, ◌||◌, ◌==◌, Option, none, some, List, [], ◌∷◌, ◌++◌,
  length, any, contains, distinct, nat_eq, leb, if◌then◌else◌,
}
use ansible_collection_found.Base.Result.{Result, ok, err, ◌>>=◌, ◌>>◌, refuse}
use ansible_collection_found.Base.Value.{
  Value, Fields, list, end, field, items, get, has_keys, is_str,
}
use ansible_collection_found.Firewall.Order.{
  Signature, field_le, signature_le, text_le, sort, numbers_eq,
}
use ansible_collection_found.Firewall.Checks.{
  Net, unsafe, management_keys, tcp_response_keys, dns_response_keys, ntp_response_keys, icmp_keys,
  text_of, require_ipv4_address, require_ipv4_host_cidr, validate_common_rule,
}

-- The approved meanings of a rule.
pub data Meaning : Type 0 where
  management : ℕ → Signature → Meaning
  tang : String → Meaning
  tcp_response : Fields → Signature → Meaning
  dns_response : String → Signature → Meaning
  ntp_response : Fields → Signature → Meaning
  icmp : Fields → Signature → Meaning

-- The lists that the loop fills.
pub record Sorted : Type 0 where
  pub management_ports : List ℕ
  pub tcp_responses : List Fields
  pub dns_sources : List String
  pub ntp_responses : List Fields
  pub icmp_rules : List Fields
  pub tang_sources : List String
  pub base_signatures : List Signature

abbrev pub unsorted : Sorted
unsorted = record {
  management_ports = [];
  tcp_responses = [];
  dns_sources = [];
  ntp_responses = [];
  icmp_rules = [];
  tang_sources = [];
  base_signatures = [];
}

-- What a rule of each meaning is appended to.
unfoldable pub add : Sorted → Meaning → Sorted
add a (management port sig) = record a {
  management_ports = a.management_ports ++ port ∷ [];
  base_signatures = a.base_signatures ++ sig ∷ [];
}
add a (tang source) = record a { tang_sources = a.tang_sources ++ source ∷ [] }
add a (tcp_response rule sig) = record a {
  tcp_responses = a.tcp_responses ++ rule ∷ [];
  base_signatures = a.base_signatures ++ sig ∷ [];
}
add a (dns_response source sig) = record a {
  dns_sources = a.dns_sources ++ source ∷ [];
  base_signatures = a.base_signatures ++ sig ∷ [];
}
add a (ntp_response rule sig) = record a {
  ntp_responses = a.ntp_responses ++ rule ∷ [];
  base_signatures = a.base_signatures ++ sig ∷ [];
}
add a (icmp rule sig) = record a {
  icmp_rules = a.icmp_rules ++ rule ∷ [];
  base_signatures = a.base_signatures ++ sig ∷ [];
}

-- `int(destination_port)` for the management ports.
abbrev pub port_number : String → ℕ
port_number port = if port == "22" then 22 else if port == "1905" then 1905 else 2222

pub record Summary : Type 0 where
  pub management_ports : List ℕ
  pub tang_sources : List String
  pub base_signatures : List Signature
  pub rule_count : ℕ

module _ (net : Net) (decimal : ℕ → String) where
  -- The pairs `(key, str(value))` of the fields but the name.
  unfoldable pub signature_fields : Fields → Signature
  signature_fields end = []
  signature_fields (field k v fs) =
      let rest = signature_fields fs in if k == "name" then rest else (k, text_of net v) ∷ rest

  unfoldable pub semantic_signature : Fields → Signature
  semantic_signature rule = sort field_le (signature_fields rule)

  -- `_port(rule.get("dst_port", ""))`
  abbrev pub destination_port : Fields → String
  destination_port rule = elim (get rule "dst_port") [ none ↦ "" | some v ↦ text_of net v ]

  abbrev pub field_text : Fields → String → String
  field_text rule key = elim (get rule key) [ none ↦ "" | some v ↦ text_of net v ]

  module _ (phase target_ipv4 controller_ipv4_cidr : String) where
    unfoldable pub management_rule : Fields → Result (Option Meaning)
    management_rule rule = do
      refuse (not (is_str target_ipv4 (get rule "dst_ip")))
          (unsafe (phase <> " TCP rule targets an unexpected IPv4 address"))
      source ← require_ipv4_host_cidr net (get rule "src_ip") (phase <> " TCP source")
      if contains ("22" ∷ "1905" ∷ "2222" ∷ []) (destination_port rule)
          then (do
            refuse (not (source == controller_ipv4_cidr))
                (unsafe (phase <> " management source is not the approved controller"))
            ok (some (management (port_number (destination_port rule)) (semantic_signature rule))))
          else if destination_port rule == "80"
          then (do
            refuse (not (phase == "hardened")) (unsafe "bootstrap input must not expose Tang")
            refuse (source == controller_ipv4_cidr)
                (unsafe "Tang source must not reuse the controller source")
            ok (some (tang source)))
          else ok none

    -- The target and the ephemeral ports of a response rule.
    abbrev pub misdirected : Fields → Bool
    misdirected rule =
        not (is_str target_ipv4 (get rule "dst_ip")) || not (destination_port rule == "32768-65535")

    unfoldable pub tcp_rule : Fields → Result Meaning
    tcp_rule rule = do
      refuse (misdirected rule || not (Net.lower net (field_text rule "tcp_flags") == "ack"))
          (unsafe (phase <> " TCP response rule has an unsafe shape"))
      ok (tcp_response rule (semantic_signature rule))

    unfoldable pub dns_rule : Fields → Result Meaning
    dns_rule rule = do
      refuse (misdirected rule || not (field_text rule "src_port" == "53"))
          (unsafe (phase <> " DNS response rule has an unsafe shape"))
      source ← require_ipv4_address net (get rule "src_ip") (phase <> " DNS source")
      ok (dns_response source (semantic_signature rule))

    unfoldable pub ntp_rule : Fields → Result Meaning
    ntp_rule rule = do
      refuse (misdirected rule || not (field_text rule "src_port" == "123"))
          (unsafe (phase <> " NTP response rule has an unsafe shape"))
      ok (ntp_response rule (semantic_signature rule))

    -- `set(rule) == keys and rule.get("protocol") == protocol`
    abbrev pub shaped : List String → String → Fields → Bool
    shaped keys protocol rule = has_keys rule keys && is_str protocol (get rule "protocol")

    unfoldable pub response_rule : Fields → String → Result Meaning
    response_rule rule label =
        if shaped tcp_response_keys "tcp" rule
        then tcp_rule rule
        else if shaped dns_response_keys "udp" rule
        then dns_rule rule
        else if shaped ntp_response_keys "udp" rule
        then ntp_rule rule
        else if shaped icmp_keys "icmp" rule
        then ok (icmp rule (semantic_signature rule))
        else err (unsafe (label <> " is not an approved semantic rule"))

    abbrev pub or_response : Option Meaning → Fields → String → Result Meaning
    or_response (some meaning) rule label = ok meaning
    or_response none rule label = response_rule rule label

    -- The body of the loop.
    unfoldable pub classify_rule : Fields → String → Result Meaning
    classify_rule rule label = do
      meaning ← (if shaped management_keys "tcp" rule then management_rule rule else ok none)
      or_response meaning rule label

    unfoldable pub classify : ℕ → List Value → Sorted → Result Sorted
    classify i [] a = ok a
    classify i (candidate ∷ rules) a = do
      let label = phase <> (" input rule " <> decimal (suc i))
      rule ← validate_common_rule net candidate label
      meaning ← classify_rule rule label
      classify (suc i) rules (add a meaning)

    abbrev pub expected_management : List ℕ
    expected_management = if phase == "bootstrap" then 22 ∷ 1905 ∷ 2222 ∷ [] else 1905 ∷ 2222 ∷ []

    -- The checks after the loop.
    unfoldable pub check_counts : Sorted → Result (Unit {0})
    check_counts a = do
      refuse (not (numbers_eq (sort leb a.management_ports) expected_management))
          (unsafe (phase <> " management ports do not match the exact contract"))
      refuse (not (nat_eq (length a.tcp_responses) 1))
          (unsafe (phase <> " requires exactly one TCP ACK response rule"))
      refuse (not (nat_eq (length a.dns_sources) 2) || not (distinct a.dns_sources))
          (unsafe (phase <> " requires exactly two unique DNS response sources"))
      refuse (not (nat_eq (length a.ntp_responses) 1))
          (unsafe (phase <> " requires exactly one NTP response rule"))
      refuse (not (nat_eq (length a.icmp_rules) 1))
          (unsafe (phase <> " requires exactly one explicit wildcard ICMP rule"))
      refuse (phase == "bootstrap" && leb 1 (length a.tang_sources))
          (unsafe "bootstrap input must not contain Tang sources")
      refuse
          (phase == "hardened"
            && (not (nat_eq (length a.tang_sources) 3) || not (distinct a.tang_sources)))
          (unsafe "hardened input requires exactly three unique Tang /32 sources")
      refuse
          (phase == "hardened"
            && any (contains (controller_ipv4_cidr ∷ (target_ipv4 <> "/32") ∷ [])) a.tang_sources)
          (unsafe "Tang sources must be separate consumer hosts")

    unfoldable pub classify_input_rules : Option Value → Result Summary
    classify_input_rules (some (list rules)) = do
      a ← classify 0 (items rules) unsorted
      check_counts a
      ok (record {
        management_ports = sort leb a.management_ports;
        tang_sources = sort text_le a.tang_sources;
        base_signatures = sort signature_le a.base_signatures;
        rule_count = length (items rules);
      })
    classify_input_rules _ = err (unsafe (phase <> " input must be a list"))
