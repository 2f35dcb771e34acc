-- ===== src/SendFile/Transfer.antt =====
-- What the client of the streaming example sends, and what its server makes of it.
use distributed_systems_afsv.Base.{
  ℕ, zero, suc, ◌+◌, ◌-◌, ◌*◌, ◌%◌, ◌^◌, ◌≤◌, ◌<◌, ◌≡◌, refl, sym, ap, ◌∙◌, inl, inr, Bool-cases,
  List, [], ◌∷◌, ◌++◌, append-nil, append_assoc, arith, leb, Bytes, length, take, drop,
  length-append, length-drop, take-append-drop,
}
use distributed_systems_afsv.SendFile.{
  bufsize, Sending, new_sending, send_loop, send_last, send, stamp_slots, Received, receive_loop,
  receive, size_total, int32,
}
use distributed_systems_afsv.Stream.{concat}

concat-append : (bs cs : List Bytes) → concat (bs ++ cs) ≡ concat bs ++ concat cs
unfolding concat
concat-append [] cs = refl
concat-append (b ∷ bs) cs =
    ap (λ x. b ++ x) (concat-append bs cs) ∙ sym (append_assoc b (concat bs) (concat cs))

concat-snoc : (bs : List Bytes) (b : Bytes) → concat (bs ++ (b ∷ [])) ≡ concat bs ++ b
unfolding concat
concat-snoc bs b = concat-append bs (b ∷ []) ∙ ap (λ x. concat bs ++ x) (append-nil b)

-- The state after the loop over `rest`, where every write succeeds.
record Sends (rest : Bytes) (s t : Sending) : Type 0 where
  content : concat t.blocks ≡ concat s.blocks ++ rest
  count : t.count ≡ s.count + length rest
  total : bufsize * t.stamps + t.buf_size ≡ bufsize * s.stamps + length rest
  more : s.stamps ≤ t.stamps

send_loop-Sends :
    (f budget : ℕ) (rest : Bytes) (s : Sending)
    → length rest < f
    → length rest < budget
    → Sends rest s (send_loop f budget rest s)
unfolding send_loop send_last
send_loop-Sends zero budget rest s hf hb = absurd (omega arith)
send_loop-Sends (suc f) zero rest s hf hb = absurd (omega arith)
send_loop-Sends (suc f) (suc n) rest s hf hb = elim (Bool-cases (leb bufsize (length rest))) [
  | inl full ↦
      let some_bytes : bufsize ≤ length rest = ground (arith, full) in
      let shorter : length (drop bufsize rest) + bufsize ≡ length rest =
        omega (arith, length-drop bufsize rest, some_bytes) in
      let s' : Sending = record {
        blocks = s.blocks ++ (take bufsize rest ∷ []);
        count = s.count + bufsize;
        stamps = s.stamps + 1;
        buf_size = bufsize;
      } in
      let r =
        send_loop-Sends f n (drop bufsize rest) s' (omega (arith, shorter, hf))
          (omega (arith, shorter, hb)) in
      rw (send_loop, full)
        (record {
          content =
              r.content
              ∙ ap (λ x. x ++ drop bufsize rest) (concat-snoc s.blocks (take bufsize rest))
              ∙ append_assoc (concat s.blocks) (take bufsize rest) (drop bufsize rest)
              ∙ ap (λ x. concat s.blocks ++ x) (take-append-drop bufsize rest);
          count = omega (arith, r.count, shorter);
          total = omega (arith, r.total, shorter);
          more = omega (arith, r.more);
        })
  | inr short ↦
      rw (send_loop, short)
        (record {
          content = concat-snoc s.blocks rest;
          count = refl;
          total = refl;
          more = omega arith;
        })
]

receive_loop_file :
    (bs : List Bytes) (r : Received) → (receive_loop bs r).file ≡ r.file ++ concat bs
unfolding receive_loop concat
receive_loop_file [] r = sym (append-nil r.file)
receive_loop_file (b ∷ bs) r =
    receive_loop_file bs (record { file = r.file ++ b; size = (r.size + length b) % 2 ^ 64 })
    ∙ append_assoc r.file b (concat bs)

receive_loop_size :
    (bs : List Bytes) (r : Received)
    → r.size < 2 ^ 64
    → (receive_loop bs r).size ≡ (r.size + length (concat bs)) % 2 ^ 64
unfolding receive_loop concat
receive_loop_size [] r h = omega (arith, h)
receive_loop_size (b ∷ bs) r h =
    let r' : Received = record { file = r.file ++ b; size = (r.size + length b) % 2 ^ 64 } in
    omega (arith, receive_loop_size bs r' (omega arith), length-append b (concat bs))

-- The server of the streaming example writes the file that its client sends, and answers its
-- length modulo 2^64; the client counts the same length, and `measure_bandwidth` prints it as a
-- signed number of 32 bits. The stream takes a write for each byte and one more.
pub receive-send :
    (budget : ℕ) (file : Bytes)
    → length file < budget
    → let r = receive (send budget file).blocks in
      (r.file ≡ file)
      × (r.size ≡ length file % 2 ^ 64)
      × ((send budget file).count ≡ length file)
      × (size_total (send budget file) ≡ int32 (length file))
unfolding send receive size_total
receive-send budget file room =
    let t = send_loop-Sends (suc (length file)) budget file new_sending (omega arith) room in
    let s = send_loop (suc (length file)) budget file new_sending in
    let whole : concat s.blocks ≡ file = unfold concat in t.content in
    let empty : Received = record { file = []; size = 0 } in
    let total : bufsize * (s.stamps + 1 - 2) + s.buf_size ≡ length file =
      omega (arith, t.total, t.more) in
    (
      receive_loop_file s.blocks empty ∙ whole,
      omega (arith, receive_loop_size s.blocks empty (omega arith), ap length whole),
      omega (arith, t.count),
      ap int32 total,
    )

send_loop_stamps :
    (f budget : ℕ) (rest : Bytes) (s : Sending)
    → bufsize * (send_loop f budget rest s).stamps ≤ bufsize * s.stamps + length rest
unfolding send_loop send_last
send_loop_stamps zero budget rest s = omega arith
send_loop_stamps (suc f) zero rest s = ground arith
send_loop_stamps (suc f) (suc n) rest s = elim (Bool-cases (leb bufsize (length rest))) [
  | inl full ↦
      let some_bytes : bufsize ≤ length rest = ground (arith, full) in
      rw (send_loop, full)
        (omega
          (arith, length-drop bufsize rest, some_bytes, send_loop_stamps f n (drop bufsize rest)))
  | inr short ↦ rw (send_loop, short) (omega arith)
]

-- The timestamps that `send` takes stay below the end of the array that it makes for them,
-- whatever the length of the file, and wherever the stream breaks.
pub stamps_fit : (budget : ℕ) (file : Bytes) → (send budget file).stamps < stamp_slots file
unfolding send
stamps_fit budget file = omega (arith, send_loop_stamps (suc (length file)) budget file new_sending)
