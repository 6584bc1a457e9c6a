-- ===== src/Firewall/Exposure.antt =====
-- What an accepted plan lets through, told without the code that accepts it.
use ansible_collection_found.Base.{
  ℕ, suc, String, ◌<>◌, Bool, true, false, not, ◌&&◌, ◌||◌, ◌==◌, Option, none, some, List, [], ◌∷◌,
  ◌≡◌, refl, ap, arith, contains, All, if◌then◌else◌, Bool-cases, inl, inr, eq_iff, nat_eq,
}
use ansible_collection_found.Base.Result.{never, Result, ok, err, ◌>>◌, >>=-ok, refuse-ok, refuse}
use ansible_collection_found.Base.Value.{
  Value, null, bool, int, Fields, Items, dict, str, list, items, get, has_keys, is_str,
}
use ansible_collection_found.Firewall.Checks.{
  Net, unsafe, validate_common_rule, require_ipv4_host_cidr, management_keys, icmp_keys,
  tcp_response_keys, dns_response_keys, ntp_response_keys, require_mapping,
}
use ansible_collection_found.Firewall.Rules.{
  Meaning, Sorted, unsorted, add, Summary, destination_port, field_text, misdirected,
  management_rule, tcp_rule, dns_rule, ntp_rule, shaped, response_rule, or_response, classify_rule,
  classify, classify_input_rules,
}

none_some {ℓ ℓ2} : {A : Type ℓ} {P : Type ℓ2} {x : A} → ok none ≡ ok (some x) → P
none_some h = absurd (cc (h))

-- Which branch of a test gave the result.
if_elim {ℓ ℓ2} :
    {A : Type ℓ} {P : Type ℓ2} (c : Bool) (x y r : Result A)
    → (if c then x else y) ≡ r
    → (c ≡ true → x ≡ r → P)
    → (y ≡ r → P)
    → P
if_elim true x y r h k j = k refl h
if_elim false x y r h k j = j h

-- The four shapes of a response rule.
by_shape {ℓ ℓ2} :
    {A : Type ℓ} {P : Type ℓ2} (c1 c2 c3 b4 c4 : Bool) (x1 x2 x3 : Result A) (x4 m : A) (e : String)
    → (if c1 then x1 else if c2 then x2 else if c3 then x3 else if b4 && c4 then ok x4 else err e)
      ≡ ok m
    → (c1 ≡ true → x1 ≡ ok m → P)
    → (c2 ≡ true → x2 ≡ ok m → P)
    → (c3 ≡ true → x3 ≡ ok m → P)
    → (c4 ≡ true → P)
    → P
by_shape true c2 c3 b4 c4 x1 x2 x3 x4 m e h k1 k2 k3 k4 = k1 refl h
by_shape false true c3 b4 c4 x1 x2 x3 x4 m e h k1 k2 k3 k4 = k2 refl h
by_shape false false true b4 c4 x1 x2 x3 x4 m e h k1 k2 k3 k4 = k3 refl h
by_shape false false false true true x1 x2 x3 x4 m e h k1 k2 k3 k4 = k4 refl
by_shape false false false true false x1 x2 x3 x4 m e h k1 k2 k3 k4 = never h
by_shape false false false false c4 x1 x2 x3 x4 m e h k1 k2 k3 k4 = never h

module _ (net : Net) (decimal : ℕ → String) (phase target controller : String) where
  -- The traffic that answers: established TCP, or UDP from a server's own port.
  pub data Answers (rule : Fields) : Type 0 where
    established :
        is_str "tcp" (get rule "protocol") ≡ true
        → (Net.lower net (field_text net decimal rule "tcp_flags") == "ack") ≡ true
        → Answers rule
    from_server :
        (port : String)
        → contains ("53" ∷ "123" ∷ []) port ≡ true
        → is_str "udp" (get rule "protocol") ≡ true
        → (field_text net decimal rule "src_port" == port) ≡ true
        → Answers rule

  -- The traffic that one rule may let in.
  pub data Permits (rule : Fields) : Type 0 where
    -- the management ports over TCP, from the controller alone
    from_controller :
        is_str "tcp" (get rule "protocol") ≡ true
        → is_str target (get rule "dst_ip") ≡ true
        → is_str controller (get rule "src_ip") ≡ true
        → contains ("22" ∷ "1905" ∷ "2222" ∷ []) (destination_port net decimal rule) ≡ true
        → Permits rule
    -- port 80 over TCP, of the hardened phase, from one other host
    from_consumer :
        (source : String)
        → is_str "tcp" (get rule "protocol") ≡ true
        → (phase == "hardened") ≡ true
        → is_str target (get rule "dst_ip") ≡ true
        → get rule "src_ip" ≡ some (str source)
        → Net.network net source ≡ some (source, 32)
        → (source == controller) ≡ false
        → (destination_port net decimal rule == "80") ≡ true
        → Permits rule
    -- answers to the target's ephemeral ports
    reply :
        Answers rule
        → is_str target (get rule "dst_ip") ≡ true
        → (destination_port net decimal rule == "32768-65535") ≡ true
        → Permits rule
    -- ICMP
    echo : is_str "icmp" (get rule "protocol") ≡ true → Permits rule

  cidr :
      (v : Option Value) (label source : String)
      → require_ipv4_host_cidr net v label ≡ ok source
      → (v ≡ some (str source)) × (Net.network net source ≡ some (source, 32))
  unfolding require_ipv4_host_cidr
  cidr (some (str s)) label source h = go (Net.network net s) refl h
    where
      go :
          (r : Option (String × ℕ))
          → Net.network net s ≡ r
          → (elim r [
            | some (canonical, prefix) ↦
                refuse
                  (not (nat_eq prefix 32) || not (canonical == s))
                  (unsafe (label <> " must be a canonical IPv4 /32"))
                >> ok s
            | none ↦ err (unsafe (label <> " must be a canonical IPv4 /32"))
          ])
            ≡ ok source
          → (some (str s) ≡ some (str source)) × (Net.network net source ≡ some (source, 32))
      go (some (canonical, prefix)) e h =
          let same : s ≡ source = ground arith in
          let whole : canonical ≡ s = ground (arith, eq_iff canonical s) in
          let host : prefix ≡ 32 = ground arith in (cc (same), cc (e, same, whole, host))
      go none e h = cc
  cidr none label source h = cc
  cidr (some null) label source h = cc
  cidr (some (bool _)) label source h = cc
  cidr (some (int _)) label source h = cc
  cidr (some (list _)) label source h = cc
  cidr (some (dict _)) label source h = cc

  management_rule-Permits :
      (rule : Fields) (m : Meaning)
      → is_str "tcp" (get rule "protocol") ≡ true
      → management_rule net decimal phase target controller rule ≡ ok (some m)
      → Permits rule
  unfolding management_rule
  management_rule-Permits rule m tcp h =
      let (right, h1) = refuse-ok (not (is_str target (get rule "dst_ip"))) _ _ h in
      let (source, is_source, h2) =
        >>=-ok (require_ipv4_host_cidr net (get rule "src_ip") _) _ h1 in
      let there : is_str target (get rule "dst_ip") ≡ true = not_false _ right in
      let (from_, host) = cidr (get rule "src_ip") _ source is_source in
      elim (Bool-cases
        (contains ("22" ∷ "1905" ∷ "2222" ∷ []) (destination_port net decimal rule))) [
          | inl port ↦
              let same : (source == controller) ≡ true = ground arith in
              from_controller tcp there (rw from_ same) port
          | inr other ↦ elim (Bool-cases (destination_port net decimal rule == "80")) [
            | inl http ↦
                let late : (phase == "hardened") ≡ true = ground arith in
                let apart : (source == controller) ≡ false = ground arith in
                from_consumer source tcp late there from_ host apart http
            | inr neither ↦ absurd (ground arith)
          ]
        ]
    where
      not_false : (b : Bool) → not b ≡ false → b ≡ true
      not_false true e = refl
      not_false false e = cc

  -- The conditions of a response rule, when its shape is not refused.
  directed :
      (a b c : Bool) → ((not a || not b) || not c) ≡ false → (a ≡ true) × (b ≡ true) × (c ≡ true)
  directed true true true e = (refl, refl, refl)
  directed true true false e = cc
  directed true false c e = cc
  directed false b c e = cc

  reply_if :
      (rule : Fields) (c : Bool)
      → (misdirected net decimal phase target controller rule || not c) ≡ false
      → (c ≡ true → Answers rule)
      → Permits rule
  reply_if rule c e answers =
      let (there, port, holds) =
        directed (is_str target (get rule "dst_ip"))
          (destination_port net decimal rule == "32768-65535") c e in
      reply (answers holds) there port

  -- The protocol of a rule of a shape.
  protocol_of :
      (keys : List String) (protocol : String) (rule : Fields)
      → shaped net decimal phase target controller keys protocol rule ≡ true
      → is_str protocol (get rule "protocol") ≡ true
  protocol_of keys protocol rule h = ground (arith, h)

  tcp_rule-Permits :
      (rule : Fields) (m : Meaning)
      → is_str "tcp" (get rule "protocol") ≡ true
      → tcp_rule net decimal phase target controller rule ≡ ok m
      → Permits rule
  unfolding tcp_rule
  tcp_rule-Permits rule m tcp h =
      reply_if rule (Net.lower net (field_text net decimal rule "tcp_flags") == "ack")
        ((refuse-ok _ _ _ h).0) (established tcp)

  dns_rule-Permits :
      (rule : Fields) (m : Meaning)
      → is_str "udp" (get rule "protocol") ≡ true
      → dns_rule net decimal phase target controller rule ≡ ok m
      → Permits rule
  unfolding dns_rule
  dns_rule-Permits rule m udp h =
      reply_if rule (field_text net decimal rule "src_port" == "53") ((refuse-ok _ _ _ h).0)
        (from_server "53" refl udp)

  ntp_rule-Permits :
      (rule : Fields) (m : Meaning)
      → is_str "udp" (get rule "protocol") ≡ true
      → ntp_rule net decimal phase target controller rule ≡ ok m
      → Permits rule
  unfolding ntp_rule
  ntp_rule-Permits rule m udp h =
      reply_if rule (field_text net decimal rule "src_port" == "123") ((refuse-ok _ _ _ h).0)
        (from_server "123" refl udp)

  response_rule-Permits :
      (rule : Fields) (label : String) (m : Meaning)
      → response_rule net decimal phase target controller rule label ≡ ok m
      → Permits rule
  unfolding response_rule
  response_rule-Permits rule label m h =
      by_shape (shaped net decimal phase target controller tcp_response_keys "tcp" rule)
        (shaped net decimal phase target controller dns_response_keys "udp" rule)
        (shaped net decimal phase target controller ntp_response_keys "udp" rule)
        (has_keys rule icmp_keys) (is_str "icmp" (get rule "protocol"))
        (tcp_rule net decimal phase target controller rule)
        (dns_rule net decimal phase target controller rule)
        (ntp_rule net decimal phase target controller rule) _ m _ h
        (λ s. tcp_rule-Permits rule m (protocol_of tcp_response_keys "tcp" rule s))
        (λ s. dns_rule-Permits rule m (protocol_of dns_response_keys "udp" rule s))
        (λ s. ntp_rule-Permits rule m (protocol_of ntp_response_keys "udp" rule s)) echo

  classify_rule-Permits :
      (rule : Fields) (label : String) (m : Meaning)
      → classify_rule net decimal phase target controller rule label ≡ ok m
      → Permits rule
  unfolding classify_rule
  classify_rule-Permits rule label m h =
      let (found, h1, h2) =
        >>=-ok
          (if shaped net decimal phase target controller management_keys "tcp" rule
            then management_rule net decimal phase target controller rule
            else ok none)
          _ h in
      managed found h1 h2
    where
      managed :
          (found : Option Meaning)
          → (if shaped net decimal phase target controller management_keys "tcp" rule
              then management_rule net decimal phase target controller rule
              else ok none)
            ≡ ok found
          → or_response net decimal phase target controller found rule label ≡ ok m
          → Permits rule
      managed none h1 h2 = response_rule-Permits rule label m h2
      managed (some m1) h1 h2 =
          if_elim (shaped net decimal phase target controller management_keys "tcp" rule)
            (management_rule net decimal phase target controller rule) (ok none) (ok (some m1)) h1
            (λ c e. management_rule-Permits rule m1 (protocol_of management_keys "tcp" rule c) e)
            (λ e. none_some e)

  -- A rule of the plan is a mapping of what may be let in.
  pub data Safe : Value → Type 0 where
    safe_rule : (fs : Fields) → Permits fs → Safe (dict fs)

  common_dict :
      (v : Value) (label : String) (fs : Fields)
      → validate_common_rule net v label ≡ ok fs
      → v ≡ dict fs
  unfolding validate_common_rule require_mapping
  common_dict null _ fs h = never h
  common_dict (bool _) _ fs h = never h
  common_dict (int _) _ fs h = never h
  common_dict (str _) _ fs h = never h
  common_dict (list _) _ fs h = never h
  common_dict (dict gs) _ fs h = ap dict (ground arith)

  classify-Safe :
      (i : ℕ) (rules : List Value) (a b : Sorted)
      → classify net decimal phase target controller i rules a ≡ ok b
      → All Safe rules
  unfolding classify
  classify-Safe i [] a b h = tt
  classify-Safe i (rule ∷ rules) a b h =
      let (fs, common, h1) = >>=-ok (validate_common_rule net rule _) _ h in
      let (m, meant, h2) = >>=-ok (classify_rule net decimal phase target controller fs _) _ h1 in
      (
        rw (common_dict rule _ fs common) (safe_rule fs (classify_rule-Permits fs _ m meant)),
        classify-Safe (suc i) rules (add a m) b h2,
      )

-- Every input rule of an accepted phase lets in only what the plan may: a TCP management port from the
-- controller alone, TCP port 80 of the hardened phase from one other host, ICMP, or answers to the target's
-- ephemeral ports, which are TCP with the flag ACK, or UDP from port 53 or 123.
pub classify_input_rules-Safe :
    (net : Net) (decimal : ℕ → String) (phase target controller : String) (rules : Items)
    (s : Summary)
    → classify_input_rules net decimal phase target controller (some (list rules)) ≡ ok s
    → All (Safe net decimal phase target controller) (items rules)
unfolding classify_input_rules
classify_input_rules-Safe net decimal phase target controller rules s h =
    let (a, sorted, _) =
      >>=-ok (classify net decimal phase target controller 0 (items rules) unsorted) _ h in
    classify-Safe net decimal phase target controller 0 (items rules) unsorted a sorted
