-- ===== src/Modified/Replay.antt =====
-- The files of the table as lists of records, and what reading them back gives.
use distributed_systems_afsv.Base.{
  ◌≡◌, refl, ◌∙◌, Option, none, some, false, List, [], ◌∷◌, ◌++◌, arith, if◌then◌else◌, Bytes,
  equal, equal_iff, length,
}
use distributed_systems_afsv.Base.Dict
use distributed_systems_afsv.Base.Dict.{Dict, NodupKeys}
use distributed_systems_afsv.Hash.Keys.{IsKey}
use distributed_systems_afsv.Modified.{erased, text_line, timespec_size}

-- One entry of a file: the key, and the timestamp that it gets; `none` erases it.
abbrev pub Rec : Type 0
Rec = Bytes × Option Bytes

-- A timestamp that the loader can read back: sixteen bytes that do not mean an erased entry.
pub record IsTimespec (ts : Bytes) : Type 0 where
  pub size : length ts ≡ timespec_size
  pub not_erased : equal ts erased ≡ false

abbrev pub Readable : Rec → Type 0
Readable (k, none) = IsKey k
Readable (k, some ts) = IsKey k × IsTimespec ts

-- The sixteen bytes that the file holds for a record.
abbrev pub stamp : Option Bytes → Bytes
stamp none = erased
stamp (some ts) = ts

abbrev pub encode : Rec → Bytes
encode (k, o) = text_line k ++ text_line (stamp o)

unfoldable pub encode_all : List Rec → Bytes
encode_all [] = []
encode_all (r ∷ rs) = encode r ++ encode_all rs

-- Erasing a key that is not there enters the bytes 0xFF as its timestamp.
abbrev pub update : Rec → Dict Bytes → Dict Bytes
update (k, none) t = if Dict.count k t then Dict.erase k t else Dict.insert k erased t
update (k, some ts) t = Dict.insert k ts t

unfoldable pub replay : Dict Bytes → List Rec → Dict Bytes
replay t [] = t
replay t (r ∷ rs) = replay (update r t) rs

pub replay-append :
    (t : Dict Bytes) (rs ss : List Rec) → replay t (rs ++ ss) ≡ replay (replay t rs) ss
unfolding replay
replay-append t [] ss = refl
replay-append t (r ∷ rs) ss = replay-append (update r t) rs ss

-- The bytes that `ts` holds after the records, over what it held before.
unfoldable pub last_stamp : Bytes → List Rec → Bytes
last_stamp ts [] = ts
last_stamp ts (r ∷ rs) = last_stamp (stamp r.1) rs

-- The records that a snapshot writes.
unfoldable pub records : Dict Bytes → List Rec
records [] = []
records ((k, ts) ∷ t) = (k, some ts) ∷ records t

abbrev or_else : Option Bytes → Option Bytes → Option Bytes
or_else none b = b
or_else (some ts) b = some ts

or_else-none : (o : Option Bytes) → or_else o none ≡ o
or_else-none none = refl
or_else-none (some ts) = refl

replay-records_over :
    (k : Bytes) (t acc : Dict Bytes)
    → NodupKeys t
    → Dict.lookup k (replay acc (records t)) ≡ or_else (Dict.lookup k t) (Dict.lookup k acc)
unfolding replay records Dict.lookup
replay-records_over k [] acc u = refl
replay-records_over k ((j, ts) ∷ t) acc u = ground (
  arith,
  replay-records_over k t (Dict.insert j ts acc) u.1,
  Dict.lookup-insert j k ts acc,
  equal_iff j k,
)

-- A snapshot reads back as the table that it was made from.
pub replay-records :
    (k : Bytes) (t : Dict Bytes)
    → NodupKeys t
    → Dict.lookup k (replay [] (records t)) ≡ Dict.lookup k t
unfolding Dict.lookup
replay-records k t u = replay-records_over k t [] u ∙ or_else-none (Dict.lookup k t)

-- Tables that look alike look alike after the same record.
pub update-same :
    (r : Rec) (t u : Dict Bytes)
    → ((k : Bytes) → Dict.lookup k t ≡ Dict.lookup k u)
    → (k : Bytes) → Dict.lookup k (update r t) ≡ Dict.lookup k (update r u)
unfolding Dict.count
update-same (j, none) t u h k = ground (
  arith,
  h j,
  h k,
  Dict.lookup-erase j k t,
  Dict.lookup-erase j k u,
  Dict.lookup-insert j k erased t,
  Dict.lookup-insert j k erased u,
)
update-same (j, some ts) t u h k =
    ground (arith, h k, Dict.lookup-insert j k ts t, Dict.lookup-insert j k ts u)
