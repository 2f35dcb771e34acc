-- ===== src/Stream.antt =====
-- The loop that both programs send a file with: `GetContent` of afs_server.cc and the upload in
-- `afs_release` of afs_client.cc read `BUFSIZE` bytes at a time and write each block to the stream.
use distributed_systems_afsv.Base.{
  ℕ, zero, suc, ◌≤◌, ◌<◌, ◌≡◌, ap, ◌∙◌, Bool, true, false, List, [], ◌∷◌, ◌++◌, append-nil, arith,
  Bool-cases, inl, inr, leb, if◌then◌else◌, Bytes, length, take, drop, All, take-append-drop,
  length-take, length-drop,
}

abbrev pub bufsize : ℕ
bufsize = 65500

unfoldable pub concat : List Bytes → Bytes
concat [] = []
concat (b ∷ bs) = b ++ concat bs

-- The blocks that the stream took, and whether it took the last one too. `budget` is the number of
-- writes that succeed before the other side is gone. A full read is followed by another; a short
-- one, empty perhaps, is the last block. On fuel: each full read takes `size` bytes.
unfoldable pub send : ℕ → ℕ → ℕ → Bytes → List Bytes × Bool
send size zero budget b = ([], false)
send size (suc f) zero b = ([], false)
send size (suc f) (suc budget) b =
    let rest = send size f budget (drop size b) in
    if leb size (length b) then (take size b ∷ rest.0, rest.1) else (b ∷ [], true)

-- The fuel is more than the number of full reads.
unfoldable pub send_file : ℕ → ℕ → Bytes → List Bytes × Bool
send_file size budget b = send size (suc (length b)) budget b

pub send_complete :
    (size f budget : ℕ) (b : Bytes)
    → (send size f budget b).1 ≡ true
    → concat (send size f budget b).0 ≡ b
unfolding send concat
send_complete size zero budget b h = cc
send_complete size (suc f) zero b h = cc
send_complete size (suc f) (suc budget) b h = elim (Bool-cases (leb size (length b))) [
  | inl full ↦ rw full (
      ap (λ x. take size b ++ x) (send_complete size f budget (drop size b) (ground (arith, full)))
      ∙ take-append-drop size b)
  | inr short ↦ rw short (append-nil b)
]

-- With room for every write the last block is reached.
pub send-reaches :
    (size f budget : ℕ) (b : Bytes)
    → 0 < size
    → length b < f
    → f ≤ budget
    → (send size f budget b).1 ≡ true
unfolding send
send-reaches size zero budget b hs hf hb = absurd (omega arith)
send-reaches size (suc f) zero b hs hf hb = absurd (omega arith)
send-reaches size (suc f) (suc budget) b hs hf hb =
    ground (arith, length-drop size b, send-reaches size f budget (drop size b) hs)

pub send-bounded :
    (size f budget : ℕ) (b : Bytes) → All (λ m. length m ≤ size) (send size f budget b).0
unfolding send
send-bounded size zero budget b = tt
send-bounded size (suc f) zero b = tt
send-bounded size (suc f) (suc budget) b = elim (Bool-cases (leb size (length b))) [
  | inl full ↦ rw full (omega (arith, length-take size b), send-bounded size f budget (drop size b))
  | inr short ↦ rw short (ground (arith, short), tt)
]

-- If the stream takes more writes than the file has bytes, it takes the last block too, the blocks
-- are the file in its order, and none is larger than `BUFSIZE`.
pub send_file_lem :
    (budget : ℕ) (b : Bytes)
    → length b < budget
    → ((send_file bufsize budget b).1 ≡ true)
      × (concat (send_file bufsize budget b).0 ≡ b)
      × All (λ m. length m ≤ bufsize) (send_file bufsize budget b).0
unfolding send_file
send_file_lem budget b h =
    let all =
      send-reaches bufsize (suc (length b)) budget b (omega arith) (omega arith)
        (omega (arith, h)) in
    (
      all,
      send_complete bufsize (suc (length b)) budget b all,
      send-bounded bufsize (suc (length b)) budget b,
    )
