-- ===== src/ProcActivity/Summary.antt =====
-- `summarize` against plain counts over the process's sockets.
use betterconn.Prelude.{
  ℕ, ◌+◌, ◌<◌, ◌^◌, ◌%◌, ◌≡◌, true, false, ◌&&◌, ◌||◌, List, [], ◌∷◌, arith, if◌then◌else◌, length,
  any, ℕ_eq,
}
use betterconn.Prelude.Dict.{member}
use betterconn.ProcActivity.{ProcessNetActivity, SocketStateSnapshot, summarize_from, summarize}

-- How many of the inodes are in a table.
abbrev pub count_in : List ℕ → List ℕ → ℕ
count_in table [] = 0
count_in table (inode ∷ rest) = (if member inode table then 1 else 0) + count_in table rest

summarize_from_lem :
    (inodes : List ℕ) (s : SocketStateSnapshot) (a : ProcessNetActivity)
    → a.tcp_socket_count + length inodes < 2 ^ 64
    → a.udp_socket_count + length inodes < 2 ^ 64
    → let r = summarize_from inodes s a in
      (r.tcp_socket_count ≡ a.tcp_socket_count + count_in s.tcp_inodes inodes)
      × (r.udp_socket_count ≡ a.udp_socket_count + count_in s.udp_inodes inodes)
      × (r.has_established_tcp ≡ (
          a.has_established_tcp
          || any (λ i. member i s.tcp_inodes && member i s.established_tcp_inodes) inodes))
unfolding summarize_from
summarize_from_lem [] s a h k = (omega arith, omega arith, ground arith)
summarize_from_lem (i ∷ rest) s a h k =
    let a' : ProcessNetActivity = record {
      tcp_socket_count =
          (if member i s.tcp_inodes then (a.tcp_socket_count + 1) % 2 ^ 64 else a.tcp_socket_count);
      udp_socket_count =
          (if member i s.udp_inodes then (a.udp_socket_count + 1) % 2 ^ 64 else a.udp_socket_count);
      has_established_tcp =
          (if member i s.tcp_inodes && member i s.established_tcp_inodes
            then true
            else a.has_established_tcp);
    } in
    let (t, u, e) = summarize_from_lem rest s a' (ground arith) (ground arith) in
    (ground (arith, t), ground (arith, u), ground (arith, e))

-- For fewer than 2^64 sockets, `summarize` counts those of the TCP tables and those of the UDP
-- tables, and reports an established connection exactly if some socket is both in a TCP table
-- and in state 01.
pub summarize_lem :
    (inodes : List ℕ) (s : SocketStateSnapshot)
    → length inodes < 2 ^ 64
    → let r = summarize inodes s in
      (r.tcp_socket_count ≡ count_in s.tcp_inodes inodes)
      × (r.udp_socket_count ≡ count_in s.udp_inodes inodes)
      × (r.has_established_tcp
          ≡ any (λ i. member i s.tcp_inodes && member i s.established_tcp_inodes) inodes)
unfolding summarize
summarize_lem inodes s h =
    let (t, u, e) =
      summarize_from_lem inodes s
        (record { tcp_socket_count = 0; udp_socket_count = 0; has_established_tcp = false })
        (omega arith) (omega arith) in
    (omega (arith, t), omega (arith, u), e)
