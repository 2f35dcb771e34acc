-- ===== src/SendFile.antt =====
-- The example of streaming in grpc_example: send_file_client.cc sends a file in blocks, takes the
-- time of each, and prints the bandwidth; send_file_server.cc writes what it receives and answers
-- the size.
pub mod Transfer
use distributed_systems_afsv.Base.{
  ℕ, zero, suc, ◌+◌, ◌-◌, ◌*◌, ◌/◌, ◌%◌, ◌^◌, ℤ, pos, negsuc, Bool, true, false, Option, none, some,
  List, [], ◌∷◌, ◌++◌, leb, ltb, if◌then◌else◌, Bytes, codes, length, take, drop,
}

-- `BUFSIZE`, 12 KB.
abbrev pub bufsize : ℕ
bufsize = 12288

-- The variables of `SendFileClient::send`: the blocks that the stream took, `count`, how many of
-- the timestamps are filled (`ts_ptr - timestamps`), and `buf.size()`.
pub record Sending : Type 0 where
  pub blocks : List Bytes
  pub count : ℕ
  pub stamps : ℕ
  pub buf_size : ℕ

-- The start time is taken before the loop.
abbrev pub new_sending : Sending
new_sending = record { blocks = []; count = 0; stamps = 1; buf_size = bufsize }

-- `writer->Write(d)`, with the number of writes that still succeed.
abbrev pub write_block : ℕ → Bytes → Sending → Sending
write_block zero b s = s
write_block (suc budget) b s = record s { blocks = s.blocks ++ (b ∷ []) }

-- The last read came to the end of the file: the buffer shrinks to what it gave.
unfoldable pub send_last : ℕ → Bytes → Sending → Sending
send_last budget rest s =
    let t = write_block budget rest s in
    record t { count = s.count + length rest; buf_size = length rest }

-- The loop, on fuel; a `Write` that fails ends it, and the file is not at its end then.
unfoldable pub send_loop : ℕ → ℕ → Bytes → Sending → Sending
unfolding send_last
send_loop zero budget rest s = s
send_loop (suc f) budget rest s = elim (leb bufsize (length rest)) [
  | false ↦ send_last budget rest s
  | true ↦ elim budget [
    | zero ↦ s
    | suc n ↦ send_loop f n (drop bufsize rest) (record {
      blocks = s.blocks ++ (take bufsize rest ∷ []);
      count = s.count + bufsize;
      stamps = s.stamps + 1;
      buf_size = bufsize;
    })
  ]
]

-- `send` up to `Finish`: the end time is taken behind the loop.
unfoldable pub send : ℕ → Bytes → Sending
send budget file =
    let s = send_loop (suc (length file)) budget file new_sending in
    record s { stamps = s.stamps + 1 }

-- The room in `tss`.
abbrev pub stamp_slots : Bytes → ℕ
stamp_slots file = 10 + length file / bufsize

-- An `int` of 32 bits that wraps.
abbrev pub int32 : ℕ → ℤ
int32 n = let w = n % 2 ^ 32 in if ltb w (2 ^ 31) then pos w else negsuc (2 ^ 32 - w - 1)

-- `size_total` of `measure_bandwidth(bufsize, buf.size())`; `count` there is one less than the
-- timestamps, which are two or more.
unfoldable pub size_total : Sending → ℤ
size_total s = int32 (bufsize * (s.stamps - 2) + s.buf_size)

-- `SendFileImpl::Send`: the file that it leaves, and `r` of the answer.
pub record Received : Type 0 where
  pub file : Bytes
  pub size : ℕ

unfoldable pub receive_loop : List Bytes → Received → Received
receive_loop [] r = r
receive_loop (b ∷ bs) r =
    receive_loop bs (record { file = r.file ++ b; size = (r.size + length b) % 2 ^ 64 })

unfoldable pub receive : List Bytes → Received
receive blocks = receive_loop blocks (record { file = []; size = 0 })

-- What `getopt(argc, argv, "hs:")` answers in the client's `main`.
pub data Opt : Type 0 where
  server : Bytes → Opt
  help : Opt
  unknown : Opt

-- The end of `main`: an exit code, or a file that is sent to a server.
pub data Run : Type 0 where
  exited : ℕ → Run
  sends : Bytes → Bytes → Run

-- The options, and then the arguments behind them.
unfoldable pub main : List Opt → List Bytes → Bytes → Run
main [] [] addr = exited 1
main [] (path ∷ more) addr = sends addr path
main (server addr ∷ os) args _ = main os args addr
main (help ∷ os) args addr = exited 0
main (unknown ∷ os) args addr = exited 1

abbrev pub default_server : Bytes
default_server = codes "128.105.37.149:53706"
