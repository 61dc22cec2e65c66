-- ===== src/IrqAffinity/Spread.antt =====
-- What is saved of the queues while they are spread.
use betterconn.Prelude.{
  ◌≡◌, ◌≢◌, refl, ap, ◌∙◌, sym, false, List, [], ◌∷◌, ◌++◌, Text, Text_eq, arith, map, append_assoc,
  append-nil,
}
use betterconn.Prelude.Dict.{member}
use betterconn.Io.{ok}
use betterconn.Os.{Os}
use betterconn.IrqAffinity.{spread_queues, read_first_line, first_line_found, queues_path}
use betterconn.IrqAffinity.Saved.{saved_line, saved_text}

abbrev pub mask_path : Text → Text → Text → Text
mask_path iface mask_file queue = queues_path iface ++ (b'/' ∷ (queue ++ mask_file))

module _ ⦃os : Os⦄ (iface mask_file : Text) where
  open os use {World, read_file, write_file}

  -- The path of a queue's mask with the mask that stands there
  abbrev pub mask_entry : World → Text → Text × Text
  mask_entry w queue = (queue ++ mask_file, read_first_line (mask_path iface mask_file queue) w)

  abbrev pub paths_of : List Text → List Text
  paths_of queues = map (mask_path iface mask_file) queues

  -- No queue is listed twice.
  abbrev pub DistinctQueues : List Text → Type 0
  DistinctQueues [] = Unit {0}
  DistinctQueues (queue ∷ rest) =
      (member (mask_path iface mask_file queue) (paths_of rest) ≡ false) × DistinctQueues rest

  -- Writing the mask of one queue leaves the masks of the others alone.
  abbrev pub MasksApart : Type 0
  MasksApart =
      (queue other mask : Text) (w : World)
      → mask_path iface mask_file queue ≢ mask_path iface mask_file other
      → read_file (mask_path iface mask_file queue)
          (write_file (mask_path iface mask_file other) mask w).1
        ≡ read_file (mask_path iface mask_file queue) w

  module _ (apart : MasksApart) where
    entries_same :
        (other mask : Text) (queues : List Text) (w : World)
        → member (mask_path iface mask_file other) (paths_of queues) ≡ false
        → map (mask_entry (write_file (mask_path iface mask_file other) mask w).1) queues
          ≡ map (mask_entry w) queues
    unfolding read_first_line
    entries_same other mask [] w h = refl
    entries_same other mask (queue ∷ rest) w h =
        let path = mask_path iface mask_file queue in
        let v : World = (write_file (mask_path iface mask_file other) mask w).1 in
        let differ : path ≢ mask_path iface mask_file other =
          ground (arith, Text_eq.beq_iff path (mask_path iface mask_file other)) in
        ap (λ found. (queue ++ mask_file, first_line_found found) ∷ map (mask_entry v) rest)
          (apart queue other mask w differ)
        ∙ ap (λ entries. mask_entry w queue ∷ entries)
            (entries_same other mask rest w (ground arith))

    -- Where no queue is listed twice, and writing the mask of one queue leaves the others alone,
    -- spreading the queues throws nothing, and the text to save gets one entry for each queue, in
    -- their order: the path of its mask, with the mask that stood there before any of the writes.
    pub spread_queues_lem :
        (mask : Text) (queues : List Text) (text : Text) (w : World)
        → DistinctQueues queues
        → (spread_queues iface mask_file mask queues text w).0
          ≡ ok (text ++ saved_text (map (mask_entry w) queues))
    unfolding spread_queues saved_text
    spread_queues_lem mask [] text w distinct = ap ok (sym (append-nil text))
    spread_queues_lem mask (queue ∷ rest) text w (new, distinct) =
        let v : World = (write_file (mask_path iface mask_file queue) mask w).1 in
        let line = saved_line (mask_entry w queue) in
        spread_queues_lem mask rest (text ++ line) v distinct
        ∙ ap ok (
            append_assoc text line (saved_text (map (mask_entry v) rest))
            ∙ ap (λ entries. text ++ (line ++ saved_text entries))
                (entries_same queue mask rest w new))
