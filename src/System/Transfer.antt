-- ===== src/System/Transfer.antt =====
-- A file on its way: the blocks of an upload are its bytes, and so are the blocks of a download.
use distributed_systems_afsv.Base.{
  none, ℕ, suc, zero, ◌<◌, ◌≡◌, refl, sym, ap, ◌∙◌, Bool, true, false, some, List, [], ◌∷◌, ◌++◌,
  map, arith, Bytes, length, take, drop, not, Option-cases, Bool-cases, inl, inr, leb,
}
use mathlib.Core.Option.{none-ne-some, some-injective}
use distributed_systems_afsv.Client.{last_block}
use distributed_systems_afsv.Client.Release.{messages}
use distributed_systems_afsv.Posix.{find}
use distributed_systems_afsv.Posix.Laws.{
  read_file_found, read_file_missing, mtime_of_found, is_file_found,
}
use distributed_systems_afsv.Proto.{MetaContent}
use distributed_systems_afsv.Server.{Server, fs_path, get_content}
use distributed_systems_afsv.Server.Temporary.{Stored, payload, AllFor}
use distributed_systems_afsv.Stream.{concat, send, send_file, bufsize, send_complete, send-reaches}
use distributed_systems_afsv.System.{sent_all}

pub payload-messages : (path : Bytes) (bs : List Bytes) → payload (messages path bs) ≡ concat bs
unfolding concat
payload-messages path [] = refl
payload-messages path (b ∷ bs) = ap (λ x. b ++ x) (payload-messages path bs)

pub messages-AllFor : (path : Bytes) (bs : List Bytes) → AllFor path (messages path bs)
messages-AllFor path [] = tt
messages-AllFor path (b ∷ bs) = (refl, messages-AllFor path bs)

abbrev pub meta_block : Bytes → Bytes → MetaContent
meta_block ts b = record { file_exists = true; timestamp = ts; b = b }

-- A list of blocks with its first block shown.
pub record Blocks (bs : List Bytes) (content : Bytes) : Type 0 where
  pub first : Bytes
  pub more : List Bytes
  pub shape : bs ≡ first ∷ more
  pub whole : concat (first ∷ more) ≡ content

send-cons :
    (size f budget : ℕ) (b : Bytes)
    → (first : Bytes) × (more : List Bytes) × ((send size (suc f) (suc budget) b).0 ≡ first ∷ more)
unfolding send
send-cons size f budget b = elim (Bool-cases (leb size (length b))) [
  | inl full ↦ (take size b, (send size f budget (drop size b)).0, rw full refl)
  | inr short ↦ (b, [], rw short refl)
]

-- If the stream takes a write for each byte of the file and one more, it takes the whole file, in
-- one block at least.
pub send_file-Blocks :
    (budget : ℕ) (b : Bytes)
    → length b < budget
    → ((send_file bufsize budget b).1 ≡ true) × Blocks (send_file bufsize budget b).0 b
unfolding send_file
send_file-Blocks zero b h = elim h [ ]
send_file-Blocks (suc budget) b h =
    let all =
      send-reaches bufsize (suc (length b)) (suc budget) b (omega arith) (omega arith)
        (omega (arith, h)) in
    let (first, more, shape) = send-cons bufsize (length b) budget b in
    (
      all,
      record {
        first = first;
        more = more;
        shape = shape;
        whole = rw (← shape) (send_complete bufsize (suc (length b)) (suc budget) b all);
      },
    )

pub blocks-of_map :
    (ts : Bytes) (bs : List Bytes) → concat (map (λ m. m.b) (map (meta_block ts) bs)) ≡ concat bs
unfolding concat
blocks-of_map ts [] = refl
blocks-of_map ts (b ∷ bs) = ap (λ x. b ++ x) (blocks-of_map ts bs)

pub last_block-stamp :
    (ts b : Bytes) (bs : List Bytes)
    → (last_block (meta_block ts b) (map (meta_block ts) bs)).timestamp ≡ ts
last_block-stamp ts b [] = refl
last_block-stamp ts b (c ∷ bs) = last_block-stamp ts c bs

-- What `GetContent` answers for a file that the server has, if the stream takes all of it: blocks
-- that make up the content, each with the file's `st_mtim`.
pub record Fetched (root path b ts : Bytes) (budget : ℕ) (s : Server) : Type 0 where
  pub first : MetaContent
  pub more : List MetaContent
  pub sent : get_content root none budget path s ≡ first ∷ more
  pub complete : sent_all root none budget path s ≡ true
  pub exists : first.file_exists ≡ true
  pub whole : concat (map (λ m. m.b) (first ∷ more)) ≡ b
  pub stamped : (last_block first more).timestamp ≡ ts

pub get_content_found :
    (root path : Bytes) (budget i : ℕ) (s : Server)
    → find (fs_path root path) s.fs ≡ some i
    → (s.fs.inodes i).is_dir ≡ false
    → get_content root none budget path s
      ≡ map (meta_block (s.fs.inodes i).mtime) (send_file bufsize budget (s.fs.inodes i).content).0
unfolding get_content
get_content_found root path budget i s h file = rw (get_content, h, file) refl

pub sent_all_found :
    (root path : Bytes) (budget i : ℕ) (s : Server)
    → find (fs_path root path) s.fs ≡ some i
    → sent_all root none budget path s ≡ (send_file bufsize budget (s.fs.inodes i).content).1
unfolding sent_all
sent_all_found root path budget i s h = rw (sent_all, h) refl

not-false : (b : Bool) → not b ≡ true → b ≡ false
not-false b h = ground arith

pub Stored-Fetched :
    (root path b ts : Bytes) (budget : ℕ) (s : Server)
    → Stored root path b ts s
    → length b < budget
    → Fetched root path b ts budget s
Stored-Fetched root path b ts budget s h room =
    elim (Option-cases (find (fs_path root path) s.fs)) [
      | inl missing ↦ absurd (none-ne-some b (sym (read_file_missing _ s.fs missing) ∙ h.content))
      | inr (i, found) ↦
          let n = s.fs.inodes i in
          let same : n.content ≡ b =
            some-injective n.content b (sym (read_file_found _ i s.fs found) ∙ h.content) in
          let stamp : n.mtime ≡ ts =
            some-injective n.mtime ts (sym (mtime_of_found _ i s.fs found) ∙ h.mtime) in
          let plain = not-false n.is_dir (sym (is_file_found _ i s.fs found) ∙ h.file) in
          let (all, blocks) = send_file-Blocks budget b room in
          record {
            first = meta_block ts blocks.first;
            more = map (meta_block ts) blocks.more;
            sent =
                get_content_found root path budget i s found plain
                ∙ ap (λ t. map (meta_block t) (send_file bufsize budget n.content).0) stamp
                ∙ ap (λ x. map (meta_block ts) (send_file bufsize budget x).0) same
                ∙ ap (map (meta_block ts)) blocks.shape;
            complete =
                sent_all_found root path budget i s found
                ∙ ap (λ x. (send_file bufsize budget x).1) same
                ∙ all;
            exists = refl;
            whole = blocks-of_map ts (blocks.first ∷ blocks.more) ∙ blocks.whole;
            stamped = last_block-stamp ts blocks.first blocks.more;
          }
    ]
