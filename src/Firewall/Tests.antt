-- ===== src/Firewall/Tests.antt =====
-- A root-of-trust plan with its eight bootstrap rules and its ten hardened rules.
use ansible_collection_found.Base.{is_blank, ℕ, String, some, [], ◌≡◌, refl, All}
use ansible_collection_found.Base.Result.{Result, ok, err}
use ansible_collection_found.Base.Value.{
  Value, Items, Fields, str, list, dict, nil, cons, end, field, items,
}
use ansible_collection_found.Firewall.Checks.{
  Net, validate_common_rule, require_mapping, require_ipv4_address, require_ipv4_host_cidr, text_of,
  unsafe,
}
use ansible_collection_found.Firewall.Order.{insert, sort}
use ansible_collection_found.Firewall.Rules.{
  Summary, add, signature_fields, semantic_signature, management_rule, tcp_rule, dns_rule, ntp_rule,
  response_rule, classify_rule, classify, check_counts, classify_input_rules,
}
use ansible_collection_found.Firewall.Counts.{classify_input_rules-count}
use ansible_collection_found.Firewall.Exposure.{Safe, classify_input_rules-Safe}

-- Every text is a canonical address here, and every network has one host.
abbrev plain : Net
plain = record {
  address = λ s. some s;
  network = λ s. some (s, 32);
  repr = λ _. "";
  lower = λ s. s;
}

abbrev digits : ℕ → String
digits _ = "n"

abbrev target : String
target = "198.51.100.7"

abbrev controller : String
controller = "203.0.113.9/32"

abbrev common : String → Fields → Fields
common protocol fs = field "name" (str "rule") (
    field "ip_version" (str "ipv4")
      (field "protocol" (str protocol) (field "action" (str "accept") fs)))

abbrev to_target : String → Fields → Fields
to_target port fs = field "dst_ip" (str target) (field "dst_port" (str port) fs)

abbrev tcp_in : String → String → Value
tcp_in port source = dict (common "tcp" (to_target port (field "src_ip" (str source) end)))

abbrev answers : Items → Items
answers rest =
    cons (dict (common "tcp" (to_target "32768-65535" (field "tcp_flags" (str "ack") end)))) (
      cons (dns "192.0.2.1")
        (cons (dns "192.0.2.2") (cons ntp (cons (dict (common "icmp" end)) rest))))
  where
    dns : String → Value
    dns source = dict (
        common "udp"
          (to_target "32768-65535" (field "src_ip" (str source) (field "src_port" (str "53") end))))

    ntp : Value
    ntp = dict (common "udp" (to_target "32768-65535" (field "src_port" (str "123") end)))

abbrev hardened_rules : Items
hardened_rules = cons (tcp_in "1905" controller) (
    cons (tcp_in "2222" controller) (
      cons (tcp_in "80" "192.0.2.31/32")
        (cons (tcp_in "80" "192.0.2.32/32") (cons (tcp_in "80" "192.0.2.33/32") (answers nil)))))

abbrev bootstrap_rules : Items
bootstrap_rules =
    cons (tcp_in "22" controller)
      (cons (tcp_in "1905" controller) (cons (tcp_in "2222" controller) (answers nil)))

abbrev summary_of : Result Summary → Summary
summary_of (ok s) = s
summary_of (err _) = record {
  management_ports = [];
  tang_sources = [];
  base_signatures = [];
  rule_count = 0;
}

abbrev summary : String → Items → Summary
summary phase rules =
    summary_of (classify_input_rules plain digits phase target controller (some (list rules)))

bootstrap_accepted :
    classify_input_rules plain digits "bootstrap" target controller (some (list bootstrap_rules))
    ≡ ok (summary "bootstrap" bootstrap_rules)
unfolding classify_input_rules classify check_counts add classify_rule validate_common_rule
    management_rule tcp_rule dns_rule ntp_rule response_rule require_mapping require_ipv4_host_cidr
    require_ipv4_address text_of semantic_signature signature_fields sort insert unsafe is_blank
bootstrap_accepted = refl

hardened_accepted :
    classify_input_rules plain digits "hardened" target controller (some (list hardened_rules))
    ≡ ok (summary "hardened" hardened_rules)
unfolding classify_input_rules classify check_counts add classify_rule validate_common_rule
    management_rule tcp_rule dns_rule ntp_rule response_rule require_mapping require_ipv4_host_cidr
    require_ipv4_address text_of semantic_signature signature_fields sort insert unsafe is_blank
hardened_accepted = refl

classify_input_rules-count_example :
    (Summary.rule_count (summary "bootstrap" bootstrap_rules) ≡ 8)
    × (Summary.rule_count (summary "hardened" hardened_rules) ≡ 10)
classify_input_rules-count_example =
    classify_input_rules-count plain digits target controller bootstrap_rules hardened_rules
      (summary "bootstrap" bootstrap_rules) (summary "hardened" hardened_rules) bootstrap_accepted
      hardened_accepted

classify_input_rules-Safe_example :
    All (Safe plain digits "hardened" target controller) (items hardened_rules)
classify_input_rules-Safe_example =
    classify_input_rules-Safe plain digits "hardened" target controller hardened_rules
      (summary "hardened" hardened_rules) hardened_accepted
