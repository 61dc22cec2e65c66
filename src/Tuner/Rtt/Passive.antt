-- ===== src/Tuner/Rtt/Passive.antt =====
-- The loop over the listing of the sockets.
use betterconn.Prelude.{
  ℕ, suc, ◌+◌, ◌≡◌, refl, true, ◌⊎◌, inl, inr, Option, none, some, Text, length, arith,
  Option-cases, Bool-cases, ◌&&◌, ◌||◌,
}
use betterconn.Double.{Double, positive, minus_one_real}
use betterconn.Text.{chars, find}
use betterconn.Text.Search.{next, done, Advances, scan_total, scan_inv, find-bounds}
use betterconn.Tuner.Rtt.{rtt_key, rtt_round, passive_rtt, better, glued, rtt_at}

module _ ⦃d : Double⦄ where
  open d use {Real, lt, milli}

  -- No time yet, or a time above zero
  abbrev pub IsTime : Real → Type 0
  IsTime x = (x ≡ minus_one_real) ⊎ (positive x ≡ true)

  rtt_round-Advances : (out : Text) → Advances (length out) (rtt_round out)
  unfolding rtt_round chars
  rtt_round-Advances out p best q t e = elim (Option-cases (find rtt_key out p)) [
    | inl f ↦ absurd (ground arith)
    | inr (n, f) ↦
        let here = find-bounds rtt_key out p n f in
        elim (Bool-cases (glued out n)) [
          | inl is_glued ↦ (ground arith, ground arith)
          | inr is_free ↦ (ground arith, ground arith)
        ]
  ]

  better-IsTime : (best : Real) (found : Option Real) → IsTime best → IsTime (better best found)
  better-IsTime best none t = t
  better-IsTime best (some rtt) t =
      elim (Bool-cases (positive rtt && (lt best (milli 0) || lt rtt best))) [
        | inl less ↦ rw less (inr (ground arith))
        | inr more ↦ rw more t
      ]

  rtt_round-IsTime :
      (out : Text) (p : ℕ) (best : Real) (q : ℕ) (t : Real)
      → IsTime best
      → rtt_round out p best ≡ next q t
      → IsTime t
  unfolding rtt_round
  rtt_round-IsTime out p best q t h e = elim (Option-cases (find rtt_key out p)) [
    | inl f ↦ absurd (ground arith)
    | inr (n, f) ↦ elim (Bool-cases (glued out n)) [
      | inl is_glued ↦ let same : t ≡ best = ground arith in rw same h
      | inr is_free ↦
          let same : t ≡ better best (rtt_at out (n + 4)) = ground arith in
          rw same (better-IsTime best (rtt_at out (n + 4)) h)
    ]
  ]

  rtt_round_done :
      (out : Text) (p : ℕ) (best r : Real) → IsTime best → rtt_round out p best ≡ done r → IsTime r
  unfolding rtt_round
  rtt_round_done out p best r h e = elim (Option-cases (find rtt_key out p)) [
    | inl f ↦ let same : r ≡ best = ground arith in rw same h
    | inr (n, f) ↦ elim (Bool-cases (glued out n)) [
      | inl is_glued ↦ absurd (ground arith)
      | inr is_free ↦ absurd (ground arith)
    ]
  ]

  -- The loop over the listing of the sockets ends, whatever the listing holds, with -1 or with a
  -- time above zero.
  pub passive_rtt_lem : (out : Text) → (r : Real) × (passive_rtt out ≡ some r) × IsTime r
  unfolding passive_rtt
  passive_rtt_lem out =
      let (r, e) =
        scan_total (length out) (rtt_round out) (rtt_round-Advances out) (suc (length out)) 0
          minus_one_real (omega arith) in
      (
        r,
        e,
        scan_inv IsTime IsTime (rtt_round out) (rtt_round-IsTime out) (rtt_round_done out)
            (suc (length out)) 0 minus_one_real r (inl refl) e,
      )
