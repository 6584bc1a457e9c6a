-- ===== src/Firewall/Checks.antt =====
-- The checks that the filter makes on single values.
use ansible_collection_found.Base.{
  ℕ, String, ◌<>◌, Bool, true, false, not, ◌||◌, ◌==◌, Option, none, some, List, [], ◌∷◌, any,
  contains, subset, is_blank, nat_eq,
}
use ansible_collection_found.Base.Result.{Result, ok, err, ◌>>=◌, ◌>>◌, refuse}
use ansible_collection_found.Base.Value.{
  Value, Fields, null, str, dict, list, nil, cons, end, field, key_names, get, has_keys, is_str,
  str_and,
}

-- The functions of `ipaddress` and of Python's texts that the filter calls.
pub record Net : Type 0 where
  -- The canonical text of an IPv4 address.
  pub address : String → Option String
  -- The canonical text and the prefix length of an IPv4 network without host bits.
  pub network : String → Option (String × ℕ)
  -- `str(v)` of a value that is no text.
  pub repr : Value → String
  pub lower : String → String

abbrev pub rule_keys : List String
rule_keys =
    "action" ∷ "dst_ip" ∷ "dst_port" ∷ "ip_version" ∷ "name" ∷ "protocol" ∷ "src_ip" ∷ "src_port"
    ∷ "tcp_flags" ∷ []

abbrev pub management_keys : List String
management_keys =
    "action" ∷ "dst_ip" ∷ "dst_port" ∷ "ip_version" ∷ "name" ∷ "protocol" ∷ "src_ip" ∷ []

abbrev pub tcp_response_keys : List String
tcp_response_keys =
    "action" ∷ "dst_ip" ∷ "dst_port" ∷ "ip_version" ∷ "name" ∷ "protocol" ∷ "tcp_flags" ∷ []

abbrev pub dns_response_keys : List String
dns_response_keys =
    "action" ∷ "dst_ip" ∷ "dst_port" ∷ "ip_version" ∷ "name" ∷ "protocol" ∷ "src_ip" ∷ "src_port"
    ∷ []

abbrev pub ntp_response_keys : List String
ntp_response_keys =
    "action" ∷ "dst_ip" ∷ "dst_port" ∷ "ip_version" ∷ "name" ∷ "protocol" ∷ "src_port" ∷ []

abbrev pub icmp_keys : List String
icmp_keys = "action" ∷ "ip_version" ∷ "name" ∷ "protocol" ∷ []

unfoldable pub unsafe : String → String
unsafe reason = "Unsafe root-of-trust firewall plan: " <> reason <> "."

unfoldable pub require_mapping : Option Value → String → Result Fields
require_mapping (some (dict fs)) label = ok fs
require_mapping _ label = err (unsafe (label <> " must be a mapping"))

unfoldable pub require_exact_keys : Fields → List String → String → Result (Unit {0})
require_exact_keys fs keys label =
    refuse (not (has_keys fs keys)) (unsafe (label <> " has an unexpected field set"))

-- `rule["name"].strip()` is not empty.
abbrev pub is_named : Option Value → Bool
is_named = str_and (λ s. not (is_blank s))

unfoldable pub validate_output_rule : Option Value → String → Result (Unit {0})
validate_output_rule rule phase = do
  fs ← require_mapping rule (phase <> " output rule")
  require_exact_keys fs ("action" ∷ "name" ∷ []) (phase <> " output rule")
  refuse (not (is_str "accept" (get fs "action")))
      (unsafe (phase <> " output rule must explicitly accept output"))
  refuse (not (is_named (get fs "name")))
      (unsafe (phase <> " output rule requires a non-empty name"))

unfoldable pub validate_output : Option Value → String → Result (Unit {0})
validate_output (some (list (cons rule nil))) phase = validate_output_rule (some rule) phase
validate_output _ phase = err (unsafe (phase <> " output must contain exactly one explicit rule"))

abbrev pub field_values : Fields → List Value
field_values end = []
field_values (field k v fs) = v ∷ field_values fs

abbrev pub is_null : Value → Bool
is_null null = true
is_null _ = false

module _ (net : Net) where
  open net use {address, network, repr}

  unfoldable pub text_of : Value → String
  text_of (str s) = s
  text_of v = repr v

  unfoldable pub require_ipv4_address : Option Value → String → Result String
  require_ipv4_address (some (str s)) label = elim (address s) [
    | some canonical ↦
        refuse (not (canonical == s)) (unsafe (label <> " must be a canonical IPv4 address"))
        >> ok s
    | none ↦ err (unsafe (label <> " must be a canonical IPv4 address"))
  ]
  require_ipv4_address _ label = err (unsafe (label <> " must be a canonical IPv4 address"))

  unfoldable pub require_ipv4_host_cidr : Option Value → String → Result String
  require_ipv4_host_cidr (some (str s)) label = elim (network s) [
    | some (canonical, prefix) ↦
        refuse (not (nat_eq prefix 32) || not (canonical == s))
          (unsafe (label <> " must be a canonical IPv4 /32"))
        >> ok s
    | none ↦ err (unsafe (label <> " must be a canonical IPv4 /32"))
  ]
  require_ipv4_host_cidr _ label = err (unsafe (label <> " must be a canonical IPv4 /32"))

  -- The checks that every input rule passes first; the label is "{phase} input rule {index + 1}".
  unfoldable pub validate_common_rule : Value → String → Result Fields
  validate_common_rule rule label = do
    fs ← require_mapping (some rule) label
    refuse (not (subset (key_names fs) rule_keys))
        (unsafe (label <> " contains unsupported fields"))
    refuse (any is_null (field_values fs)) (unsafe (label <> " contains null fields"))
    refuse (any (λ v. str_and is_blank (some v)) (field_values fs))
        (unsafe (label <> " contains empty fields"))
    refuse (any (λ v. contains ("0.0.0.0/0" ∷ "::/0" ∷ []) (text_of v)) (field_values fs))
        (unsafe (label <> " contains an unrestricted network"))
    refuse (not (is_str "ipv4" (get fs "ip_version")))
        (unsafe (label <> " must be IPv4; IPv6 input is not permitted"))
    refuse (not (is_str "accept" (get fs "action")))
        (unsafe (label <> " must be an explicit accept rule"))
    refuse (not (is_named (get fs "name"))) (unsafe (label <> " requires a non-empty name"))
    ok fs
