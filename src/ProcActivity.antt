-- ===== src/ProcActivity.antt =====
-- core/src/proc_activity.cpp: the socket tables of /proc/net, and what they say of a process.
pub mod Summary
pub mod Input
use betterconn.Prelude.{
  ℕ, ◌+◌, ◌%◌, ◌^◌, Bool, true, false, not, ◌&&◌, Option, none, some, List, [], ◌∷◌, ◌++◌, ◌==◌,
  if◌then◌else◌, Text, text_eq, ℕ_eq, drop, get_or, length,
}
use betterconn.Prelude.Int.{ℤ, is_pos}
use betterconn.Prelude.Dict.{Dict, insert, member}
use betterconn.Text.{chars, find, find_first, starts_with, substr, substr_to}
use betterconn.Text.Decimal.{stoull, stoull_hex, to_string_ℤ}
use betterconn.Text.Lines.{lines, words}
use betterconn.Os.{Os}

pub record ProcessNetActivity : Type 0 where
  pub tcp_socket_count : ℕ
  pub udp_socket_count : ℕ
  pub has_established_tcp : Bool

pub record SocketStateSnapshot : Type 0 where
  pub tcp_inodes : List ℕ
  pub established_tcp_inodes : List ℕ
  pub udp_inodes : List ℕ
  pub queued_bytes_by_inode : Dict ℕ ℕ

abbrev pub empty_snapshot : SocketStateSnapshot
empty_snapshot = record {
  tcp_inodes = [];
  established_tcp_inodes = [];
  udp_inodes = [];
  queued_bytes_by_inode = [];
}

-- `insert` on a set
abbrev pub add_member : ℕ → List ℕ → List ℕ
add_member n ns = if member n ns then ns else n ∷ ns

abbrev sum_u64 : Option ℕ → Option ℕ → ℕ
sum_u64 (some a) (some b) = (a + b) % 2 ^ 64
sum_u64 _ _ = 0

unfoldable pub parse_queue_bytes : Text → ℕ
unfolding find stoull_hex
parse_queue_bytes field = elim (find (b':' ∷ []) field 0) [
  | none ↦ 0
  | some colon ↦ sum_u64 (stoull_hex (substr field 0 colon)) (stoull_hex (drop (colon + 1) field))
]

-- One entry of a table, once its inode is known.
unfoldable pub merge_entry : Bool → Text → Text → ℕ → SocketStateSnapshot → SocketStateSnapshot
unfolding parse_queue_bytes
merge_entry tcp_table state queues inode s =
    let queued = insert inode (parse_queue_bytes queues) s.queued_bytes_by_inode in
    if tcp_table
    then record s {
      tcp_inodes = add_member inode s.tcp_inodes;
      established_tcp_inodes =
          if text_eq state (b'0' ∷ b'1' ∷ [])
          then add_member inode s.established_tcp_inodes
          else s.established_tcp_inodes;
      queued_bytes_by_inode = queued;
    }
    else record s { udp_inodes = add_member inode s.udp_inodes; queued_bytes_by_inode = queued }

-- The body of the loop over the lines. A line with fewer than ten words leaves `inode_str` empty.
unfoldable pub merge_line : Bool → Text → SocketStateSnapshot → SocketStateSnapshot
unfolding merge_entry stoull words
merge_line tcp_table line s =
    let w = words line in
    elim (stoull (get_or w 9 [])) [
      | none ↦ s
      | some inode ↦
          if inode == 0 then s else merge_entry tcp_table (get_or w 3 []) (get_or w 4 []) inode s
    ]

unfoldable pub merge_lines : Bool → List Text → SocketStateSnapshot → SocketStateSnapshot
unfolding merge_line
merge_lines tcp_table [] s = s
merge_lines tcp_table (line ∷ rest) s = merge_lines tcp_table rest (merge_line tcp_table line s)

-- The loop of `summarize`
unfoldable pub summarize_from :
    List ℕ → SocketStateSnapshot → ProcessNetActivity → ProcessNetActivity
summarize_from [] snapshot a = a
summarize_from (inode ∷ rest) snapshot a =
    let is_tcp = member inode snapshot.tcp_inodes in
    summarize_from rest snapshot (record {
      tcp_socket_count = (if is_tcp then (a.tcp_socket_count + 1) % 2 ^ 64 else a.tcp_socket_count);
      udp_socket_count =
          (if member inode snapshot.udp_inodes
            then (a.udp_socket_count + 1) % 2 ^ 64
            else a.udp_socket_count);
      has_established_tcp =
          (if is_tcp && member inode snapshot.established_tcp_inodes
            then true
            else a.has_established_tcp);
    })

unfoldable pub summarize : List ℕ → SocketStateSnapshot → ProcessNetActivity
unfolding summarize_from
summarize inodes snapshot =
    summarize_from inodes snapshot
      (record { tcp_socket_count = 0; udp_socket_count = 0; has_established_tcp = false })

-- The inode of a link target such as `socket:[1234]`
unfoldable pub socket_inode : Text → Option ℕ
unfolding find stoull chars
socket_inode target = elim (find (chars "socket:[") target 0) [
  | none ↦ none
  | some open_paren ↦ elim (find (b']' ∷ []) target open_paren) [
    | none ↦ none
    | some close_paren ↦ stoull (substr_to target (open_paren + 8) (some close_paren))
  ]
]

module _ ⦃os : Os⦄ where
  open os use {World, read_file, list_dir, read_link}

  unfoldable pub merge_proc_net_table :
      Text → Bool → SocketStateSnapshot → World → SocketStateSnapshot
  unfolding merge_lines
  merge_proc_net_table path tcp_table s w = elim (read_file path w) [
    | none ↦ s
    | some content ↦ merge_lines tcp_table (drop 1 (lines content)) s
  ]

  unfoldable pub capture_socket_state : World → SocketStateSnapshot
  unfolding merge_proc_net_table
  capture_socket_state w =
      merge_proc_net_table (chars "/proc/net/udp6") false
        (merge_proc_net_table (chars "/proc/net/udp") false
          (merge_proc_net_table (chars "/proc/net/tcp6") true
            (merge_proc_net_table (chars "/proc/net/tcp") true empty_snapshot w) w)
          w)
        w

  -- The loop over the directory of descriptors. A name that starts with a dot is skipped, and so
  -- is a link that cannot be read.
  unfoldable pub add_inodes : Text → List Text → World → List ℕ → List ℕ
  unfolding socket_inode
  add_inodes dir [] w inodes = inodes
  add_inodes dir (name ∷ rest) w inodes =
      let target = read_link (dir ++ b'/' ∷ name) w in
      add_inodes dir rest w (
        if starts_with (b'.' ∷ []) name then inodes else elim target [
          | none ↦ inodes
          | some t ↦ elim (socket_inode t) [ none ↦ inodes | some n ↦ add_member n inodes ]
        ])

  unfoldable pub collect_socket_inodes : ℤ → World → List ℕ
  unfolding add_inodes
  collect_socket_inodes pid w =
      let dir = chars "/proc/" ++ to_string_ℤ pid ++ chars "/fd" in
      add_inodes dir (list_dir dir w) w []

  unfoldable pub collect_socket_inodes_for : ℤ → World → List ℕ
  unfolding collect_socket_inodes
  collect_socket_inodes_for pid w = if is_pos pid then collect_socket_inodes pid w else []
