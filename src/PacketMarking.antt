-- ===== src/PacketMarking.antt =====
-- core/src/packet_marking.cpp: the firewall rules that mark the packets of each tier, added and
-- deleted by commands. The count of failures is kept; its message on stderr is left out.
pub mod Commands
use betterconn.Prelude.{
  ℕ, ◌+◌, Bool, true, false, Option, none, some, List, [], ◌∷◌, ◌++◌, Text, ◌==◌, if◌then◌else◌,
  take, drop, map,
}
use betterconn.Io.{◌>>=◌, ◌>>◌, pure, skip, Done, for_each}
use betterconn.Os.{Os, Act, run, succeeds}
use betterconn.PriorityTier.{
  PriorityTier, hot, warm, cool, cold, cgroup_relative_path, tier_cgroup_name, tier_dscp,
}
use betterconn.Text.{chars, find}
use betterconn.Text.Decimal.{to_string}

-- `kAllTiers`
abbrev pub marked_tiers : List PriorityTier
marked_tiers = hot ∷ warm ∷ cool ∷ cold ∷ []

unfoldable pub rule_for : Text → Text → Text
rule_for tool body = tool ++ (chars " -t mangle -A OUTPUT " ++ body)

unfoldable pub dscp_mark : PriorityTier → Text
dscp_mark tier = chars " -j DSCP --set-dscp " ++ to_string (tier_dscp tier)

unfoldable pub tier_body : PriorityTier → Text
unfolding cgroup_relative_path tier_cgroup_name dscp_mark
tier_body tier =
    chars "-m cgroup --path "
    ++ (cgroup_relative_path ++ (b'/' ∷ (tier_cgroup_name tier ++ dscp_mark tier)))

unfoldable pub service_bodies : List Text
unfolding dscp_mark
service_bodies =
    (chars "-p udp --dport 53" ++ dscp_mark hot)
    ∷ (chars "-p tcp --dport 53" ++ dscp_mark hot)
    ∷ (chars "-p tcp --tcp-flags SYN,RST,ACK SYN" ++ dscp_mark hot)
    ∷ (chars "-p tcp --tcp-flags SYN,RST,ACK ACK -m length --length 0:128" ++ dscp_mark hot)
    ∷ (chars "-p udp -m length --length 0:256" ++ dscp_mark hot)
    ∷ (chars "-p udp --dport 27000:27030" ++ dscp_mark hot)
    ∷ (chars "-p udp --dport 3478:3481" ++ dscp_mark hot)
    ∷ []

-- `command.replace(pos, 4, …)` where the search finds something, and the tail that silences it
unfoldable pub with_flag : Text → Text → Text
unfolding find
with_flag flag rule = elim (find (chars " -A ") rule 0) [
  | none ↦ rule ++ chars " 2>/dev/null"
  | some place ↦ (take place rule ++ (flag ++ drop (place + 4) rule)) ++ chars " 2>/dev/null"
]

unfoldable pub to_check_command : Text → Text
unfolding with_flag
to_check_command rule = with_flag (chars " -C ") rule

unfoldable pub to_delete_command : Text → Text
unfolding with_flag
to_delete_command rule = with_flag (chars " -D ") rule

unfoldable pub idempotent_command : Text → Text
unfolding to_check_command
idempotent_command rule = to_check_command rule ++ (chars " || " ++ (rule ++ chars " 2>/dev/null"))

module _ ⦃os : Os⦄ where
  open os use {World}

  unfoldable pub ip6tables_available : Act Bool
  ip6tables_available = succeeds (chars "command -v ip6tables >/dev/null 2>&1")

  unfoldable pub for_both_families : Text → Act (List Text)
  unfolding ip6tables_available rule_for
  for_both_families body = do
    both ← ip6tables_available
    pure (
        rule_for (chars "iptables") body
        ∷ (if both then rule_for (chars "ip6tables") body ∷ [] else []))

  -- The rules of several bodies, in their order.
  unfoldable pub rules_for : List Text → Act (List Text)
  unfolding for_both_families
  rules_for [] = pure []
  rules_for (body ∷ rest) = do
    rules ← for_both_families body
    others ← rules_for rest
    pure (rules ++ others)

  unfoldable pub tier_append_rules : Act (List Text)
  unfolding rules_for tier_body
  tier_append_rules = rules_for (map tier_body marked_tiers)

  unfoldable pub service_append_rules : Act (List Text)
  unfolding rules_for service_bodies
  service_append_rules = rules_for service_bodies

  unfoldable pub append_rules : Act (List Text)
  unfolding tier_append_rules service_append_rules
  append_rules = do
    tiers ← tier_append_rules
    services ← service_append_rules
    pure (tiers ++ services)

  unfoldable pub load_required_modules : Act Done
  load_required_modules = do
    run (chars "modprobe xt_DSCP 2>/dev/null")
    run (chars "modprobe xt_cgroup 2>/dev/null")
    run (chars "modprobe xt_length 2>/dev/null")

  unfoldable pub idempotent_apply_commands : Act (List Text)
  unfolding append_rules idempotent_command
  idempotent_apply_commands = do rules ← append_rules; pure (map idempotent_command rules)

  -- The commands one after the other, with the number of those that failed.
  unfoldable pub count_failures : List Text → ℕ → Act ℕ
  count_failures [] failed = pure failed
  count_failures (command ∷ rest) failed = do
    done ← succeeds command
    count_failures rest (if done then failed else failed + 1)

  unfoldable pub apply : Act ℕ
  unfolding load_required_modules idempotent_apply_commands count_failures
  apply = do load_required_modules; commands ← idempotent_apply_commands; count_failures commands 0

  unfoldable pub revert : Act Done
  unfolding append_rules to_delete_command for_each
  revert = do rules ← append_rules; for_each rules (λ rule. run (to_delete_command rule))
