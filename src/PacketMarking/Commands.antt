-- ===== src/PacketMarking/Commands.antt =====
-- The commands of core/src/packet_marking.cpp for one rule, and the list of rules.
use betterconn.Prelude.{
  Bool, true, false, List, [], ◌∷◌, ◌++◌, Text, ◌≡◌, ◌⊎◌, inl, inr, refl, ◌∙◌, All, map,
  if◌then◌else◌,
}
use betterconn.Io.{ok, ◌>>=◌, >>=-ok, pure}
use betterconn.Os.{Os, Act}
use betterconn.Text.{chars, find, find_first, starts_with}
use betterconn.PacketMarking.{
  rule_for, with_flag, to_check_command, to_delete_command, for_both_families, ip6tables_available,
  rules_for, tier_append_rules, service_append_rules, append_rules, tier_body, service_bodies,
  marked_tiers,
}

-- A rule appends a body to the chain, with the tool of one of the two families; its check and its
-- deletion are the same command of the same tool with the other flag.
pub record IsRule (rule : Text) : Type 0 where
  pub tool : Text
  pub body : Text
  pub family : (tool ≡ chars "iptables") ⊎ (tool ≡ chars "ip6tables")
  pub appends : rule ≡ tool ++ (chars " -t mangle -A OUTPUT " ++ body)
  pub deletes :
      to_delete_command rule
      ≡ (tool ++ (chars " -t mangle -D OUTPUT " ++ body)) ++ chars " 2>/dev/null"
  pub checks :
      to_check_command rule
      ≡ (tool ++ (chars " -t mangle -C OUTPUT " ++ body)) ++ chars " 2>/dev/null"

iptables-IsRule : (body : Text) → IsRule (rule_for (chars "iptables") body)
unfolding rule_for to_delete_command to_check_command with_flag find find_first starts_with chars
iptables-IsRule body = record {
  tool = chars "iptables";
  body = body;
  family = inl refl;
  appends = refl;
  deletes = refl;
  checks = refl;
}

ip6tables-IsRule : (body : Text) → IsRule (rule_for (chars "ip6tables") body)
unfolding rule_for to_delete_command to_check_command with_flag find find_first starts_with chars
ip6tables-IsRule body = record {
  tool = chars "ip6tables";
  body = body;
  family = inr refl;
  appends = refl;
  deletes = refl;
  checks = refl;
}

All-append : {A : Type 0} (P : A → Type 0) (xs ys : List A) → All P xs → All P ys → All P (xs ++ ys)
All-append P [] ys a b = b
All-append P (x ∷ xs) ys (p, a) b = (p, All-append P xs ys a b)

module _ ⦃os : Os⦄ where
  open os use {World}

  -- The act ends, with rules only.
  abbrev pub GivesRules : Act (List Text) → World → Type 0
  GivesRules m w = (rules : List Text) × (v : World) × (m w ≡ (ok rules, v)) × All IsRule rules

  both-IsRule :
      (both : Bool) (body : Text)
      → All IsRule (
          rule_for (chars "iptables") body
          ∷ (if both then rule_for (chars "ip6tables") body ∷ [] else []))
  both-IsRule true body = (iptables-IsRule body, (ip6tables-IsRule body, tt))
  both-IsRule false body = (iptables-IsRule body, tt)

  for_both_families-GivesRules : (body : Text) (w : World) → GivesRules (for_both_families body) w
  unfolding for_both_families ip6tables_available
  for_both_families-GivesRules body w = (_, _, refl, both-IsRule _ body)

  -- Two acts that give rules, one behind the other.
  append-GivesRules :
      (m k : Act (List Text)) (w : World)
      → GivesRules m w
      → ((v : World) → GivesRules k v)
      → GivesRules (m >>= λ xs. (k >>= λ ys. pure (xs ++ ys))) w
  append-GivesRules m k w (xs, v, e, xs_rules) h =
      let (ys, u, e', ys_rules) = h v in
      (
        xs ++ ys,
        u,
        >>=-ok m (λ xs. (k >>= λ ys. pure (xs ++ ys))) w v xs e
            ∙ >>=-ok k (λ ys. pure (xs ++ ys)) v u ys e',
        All-append IsRule xs ys xs_rules ys_rules,
      )

  rules_for-GivesRules : (bodies : List Text) (w : World) → GivesRules (rules_for bodies) w
  unfolding rules_for
  rules_for-GivesRules [] w = ([], w, refl, tt)
  rules_for-GivesRules (body ∷ rest) w =
      append-GivesRules (for_both_families body) (rules_for rest) w
        (for_both_families-GivesRules body w) (rules_for-GivesRules rest)

  -- Whether or not there is a tool for the second family, the list of rules is built without an
  -- exception, and each entry appends a body with one of the two tools; the command that checks for
  -- it and the one that deletes it name the same tool, chain and body.
  pub append_rules-GivesRules : (w : World) → GivesRules append_rules w
  unfolding append_rules tier_append_rules service_append_rules
  append_rules-GivesRules w =
      append-GivesRules tier_append_rules service_append_rules w
        (rules_for-GivesRules (map tier_body marked_tiers) w) (rules_for-GivesRules service_bodies)
