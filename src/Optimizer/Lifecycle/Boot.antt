-- ===== src/Optimizer/Lifecycle/Boot.antt =====
-- What the parts of `revert` do to a file under /etc that is gone.
pub mod Files
pub mod Memory
pub mod Writes
use betterconn.Prelude.{
  ◌≡◌, refl, sym, subst, ap, ◌∙◌, inl, inr, All, Bool, true, false, not, List, [], ◌∷◌, ◌++◌, Text,
  arith, Option, none, some, if◌then◌else◌,
}
use betterconn.Prelude.Int.{ℤ}
use betterconn.Io.{Io, Done, skip, ◌>>=◌, ◌>>◌, for_each, when, >>=-ok}
use betterconn.Io.Keeps.{
  Keeps, keeps_rules, Keeps-pure, Keeps-raise, Keeps-bind, Keeps-when, Keeps-if, Keeps-for_each,
}
use betterconn.Optimizer.{write_sysctl, restore_backup, backup_entries}
use betterconn.Optimizer.Lifecycle.Errors.{load-same}
use betterconn.Os.{Os, Act, ask, change, with_result, run, succeeds, write, write_quietly}
use betterconn.PacketMarking as PacketMarking
use betterconn.PacketMarking.Commands.{IsRule, append_rules-GivesRules}
use betterconn.PacketMarking.{
  to_delete_command, rules_for, for_both_families, append_rules, tier_append_rules,
  service_append_rules, ip6tables_available,
}
use betterconn.PriorityScheduler.Groups.{
  revert_cgroup_hierarchy, revert_tier, drain_tier_cgroup, hand_back, listed_pids,
}
use betterconn.PriorityTier.{PriorityTier}
use betterconn.Storage.{save, load, saved, remove_file, path_of, ensure_dir, dir}
use betterconn.SystemDefaults.{sysctl_path, reload_configured_sysctls, command_available}
use betterconn.Text.{chars, starts_with}
use betterconn.Text.Decimal.{to_string_ℤ}
use betterconn.Text.Lines.{lines}

-- Paths outside of /etc
abbrev pub is_outside : Text → Bool
is_outside path = not (starts_with (chars "/etc/") path)

-- The tools that are called while the program is stopped
abbrev tools : List Text
tools =
    chars "systemctl "
    ∷ chars "iptables "
    ∷ chars "ip6tables "
    ∷ chars "tc "
    ∷ chars "nmcli "
    ∷ chars "iw "
    ∷ chars "ethtool "
    ∷ chars "sysctl "
    ∷ chars "command -v "
    ∷ []

abbrev starts_with_any : List Text → Text → Bool
starts_with_any [] command = false
starts_with_any (tool ∷ rest) command =
    let later = starts_with_any rest command in if starts_with tool command then true else later

abbrev pub is_tool : Text → Bool
is_tool command = starts_with_any tools command

deletion_tool : (rule : Text) → IsRule rule → is_tool (to_delete_command rule) ≡ true
unfolding chars starts_with
deletion_tool rule r = elim r.family [
  | inl e ↦ ap is_tool (
      r.deletes
      ∙ ap (λ t. (t ++ (chars " -t mangle -D OUTPUT " ++ r.body)) ++ chars " 2>/dev/null") e)
  | inr e ↦ ap is_tool (
      r.deletes
      ∙ ap (λ t. (t ++ (chars " -t mangle -D OUTPUT " ++ r.body)) ++ chars " 2>/dev/null") e)
]

module _ ⦃os : Os⦄ where
  open os use {World, write_file, exists, remove, remove_all, remove_dir, make_dirs, system}

  abbrev pub Gone : Text → World → Type 0
  Gone path w = exists path w ≡ false

  -- A file that is removed is gone, and none of these brings it back: the tools that are called, a
  -- removal, and a write or a directory made outside of /etc.
  pub record StaysGone (path : Text) : Type 0 where
    pub removed : (w : World) → Gone path (remove path w)
    pub removed_below :
        (directory : Text) (w : World)
        → starts_with (directory ++ b'/' ∷ []) path ≡ true
        → Gone path (remove_all directory w)
    pub by_command :
        (command : Text) (w : World)
        → is_tool command ≡ true
        → Gone path w
        → Gone path (system command w).1
    pub by_remove : (other : Text) (w : World) → Gone path w → Gone path (remove other w)
    pub by_remove_all : (other : Text) (w : World) → Gone path w → Gone path (remove_all other w)
    pub by_remove_dir : (other : Text) (w : World) → Gone path w → Gone path (remove_dir other w)
    pub by_make_dirs :
        (other : Text) (w : World)
        → is_outside other ≡ true
        → Gone path w
        → Gone path (make_dirs other w).1
    pub by_write :
        (other content : Text) (w : World)
        → is_outside other ≡ true
        → Gone path w
        → Gone path (write_file other content w).1

  module _ (path : Text) (stays : StaysGone path) where
    abbrev Stays : {A : Type 0} → Act A → Type 0
    Stays m = Keeps (Gone path) m

    pub ask-Stays : {A : Type 0} (f : World → A) → Stays (ask f)
    ask-Stays f = record { at = λ w h. h }

    pub run-Stays : (command : Text) → is_tool command ≡ true → Stays (run command)
    run-Stays command tool = record { at = λ w h. stays.by_command command w tool h }

    pub succeeds-Stays : (command : Text) → is_tool command ≡ true → Stays (succeeds command)
    succeeds-Stays command tool = record { at = λ w h. stays.by_command command w tool h }

    pub remove-Stays : (other : Text) → Stays (change (remove other))
    remove-Stays other = record { at = λ w h. stays.by_remove other w h }

    pub remove_dir-Stays : (other : Text) → Stays (change (remove_dir other))
    remove_dir-Stays other = record { at = λ w h. stays.by_remove_dir other w h }

    pub write-Stays : (other content : Text) → is_outside other ≡ true → Stays (write other content)
    write-Stays other content o = record { at = λ w h. stays.by_write other content w o h }

    pub write_quietly-Stays :
        (other content : Text) → is_outside other ≡ true → Stays (write_quietly other content)
    write_quietly-Stays other content o = record { at = λ w h. stays.by_write other content w o h }

    pub load-Stays : (name : Text) → Stays (load name)
    load-Stays name = record { at = λ w h. subst (Gone path) (sym (load-same name w)) h }

    pub remove_file-Stays : (name : Text) → Stays (remove_file name)
    unfolding remove_file
    remove_file-Stays name = remove-Stays (path_of name)

    ensure_dir-Stays : Stays ensure_dir
    unfolding ensure_dir dir chars starts_with
    ensure_dir-Stays =
        Keeps-bind (with_result (make_dirs dir)) _
          (record { at = λ w h. stays.by_make_dirs dir w refl h })
          (λ made. Keeps-if made _ _ (Keeps-pure tt) (Keeps-raise []))

    pub save-Stays : (name content : Text) → Stays (save name content)
    unfolding save path_of dir chars starts_with
    save-Stays name content = Keeps-bind ensure_dir _ ensure_dir-Stays (λ _.
        Keeps-bind (write (path_of name) content) _ (write-Stays (path_of name) content refl)
          (λ opened.
            Keeps-if opened _ _ (Keeps-pure tt)
              (Keeps-raise (chars "[!!] cannot write storage file: " ++ name))))

    write_sysctl-Stays : (key value : Text) → Stays (write_sysctl key value)
    unfolding write_sysctl sysctl_path chars starts_with
    write_sysctl-Stays key value = write-Stays (sysctl_path key) (value ++ b'\n' ∷ []) refl

    pub restore_backup-Stays : Stays restore_backup
    unfolding restore_backup
    restore_backup-Stays =
        Keeps-bind (load (chars "sysctl_backup")) _ (load-Stays (chars "sysctl_backup")) (λ backup.
          Keeps-for_each (backup_entries (lines backup)) _ (λ (key, value).
            Keeps-bind (write_sysctl key value) _ (write_sysctl-Stays key value)
              (λ written. Keeps-pure tt)))

    for_both_families-Stays : (body : Text) → Stays (for_both_families body)
    unfolding for_both_families ip6tables_available chars starts_with
    for_both_families-Stays body = search (keeps_rules, succeeds-Stays)

    rules_for-Stays : (bodies : List Text) → Stays (rules_for bodies)
    unfolding rules_for
    rules_for-Stays [] = Keeps-pure []
    rules_for-Stays (body ∷ rest) =
        search (keeps_rules, for_both_families-Stays body, rules_for-Stays rest)

    append_rules-Stays : Stays append_rules
    unfolding append_rules tier_append_rules service_append_rules
    append_rules-Stays = search (keeps_rules, rules_for-Stays)

    deletion-Stays : (rule : Text) → IsRule rule → Stays (run (to_delete_command rule))
    deletion-Stays rule r = run-Stays (to_delete_command rule) (deletion_tool rule r)

    deletions-Stays :
        (rules : List Text)
        → All IsRule rules
        → Stays (for_each rules (λ rule. run (to_delete_command rule)))
    unfolding for_each
    deletions-Stays [] all = Keeps-pure tt
    deletions-Stays (rule ∷ rest) (r, all) =
        Keeps-bind (run (to_delete_command rule)) _ (deletion-Stays rule r)
          (λ done. deletions-Stays rest all)

    pub packet_revert-Stays : Stays PacketMarking.revert
    unfolding PacketMarking.revert
    packet_revert-Stays = record {
      at = λ w h.
          let (rules, v, e, all) = append_rules-GivesRules w in
          let gone : Gone path v = subst (λ r. Gone path r.1) e (append_rules-Stays.at w h) in
          subst (λ r. Gone path r.1)
            (sym (
              >>=-ok append_rules (λ rs. for_each rs (λ rule. run (to_delete_command rule))) w v
                rules e))
            ((deletions-Stays rules all).at v gone);
    }

    hand_back-Stays : (pids : List ℤ) → Stays (hand_back pids)
    unfolding hand_back chars starts_with
    hand_back-Stays [] = Keeps-pure tt
    hand_back-Stays (pid ∷ rest) =
        Keeps-bind (write (chars "/sys/fs/cgroup/cgroup.procs") (to_string_ℤ pid)) _
          (write-Stays (chars "/sys/fs/cgroup/cgroup.procs") (to_string_ℤ pid) refl)
          (λ opened. Keeps-when opened (hand_back rest) (hand_back-Stays rest))

    listed-Stays :
        (content : Option Text)
        → Stays (elim content as (λ _. Act Done) [
          | none ↦ skip
          | some c ↦ hand_back (listed_pids (lines c))
        ])
    listed-Stays none = Keeps-pure tt
    listed-Stays (some c) = hand_back-Stays (listed_pids (lines c))

    drain-Stays : (tier_path : Text) → Stays (drain_tier_cgroup tier_path)
    unfolding drain_tier_cgroup
    drain-Stays tier_path = Keeps-bind (ask _) _ (ask-Stays _) listed-Stays

    revert_tier-Stays : (tier : PriorityTier) → Stays (revert_tier tier)
    unfolding revert_tier
    revert_tier-Stays tier = search (keeps_rules, drain-Stays, remove_dir-Stays)

    pub cgroup_revert-Stays : Stays revert_cgroup_hierarchy
    unfolding revert_cgroup_hierarchy
    cgroup_revert-Stays = search (keeps_rules, revert_tier-Stays, remove_dir-Stays)

    pub reload-Stays : Stays reload_configured_sysctls
    unfolding reload_configured_sysctls command_available chars starts_with
    reload-Stays = search (keeps_rules, run-Stays, succeeds-Stays) depth 12
