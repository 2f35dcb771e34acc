-- ===== src/Proto.antt =====
-- The messages of protos/afs.proto, with the defaults that proto3 gives to fields that are not set.
use distributed_systems_afsv.Base.{ℕ, ℤ, pos, Bool, false, [], Bytes}

pub record Meta : Type 0 where
  pub file_exists : Bool
  pub timestamp : Bytes

pub record FilepathContent : Type 0 where
  pub filepath : Bytes
  pub b : Bytes

pub record MetaContent : Type 0 where
  pub file_exists : Bool
  pub timestamp : Bytes
  pub b : Bytes

pub record StatContent : Type 0 where
  pub return_code : ℤ
  pub error_number : ℕ
  pub st_dev : ℕ
  pub st_ino : ℕ
  pub st_mode : ℕ
  pub st_nlink : ℕ
  pub st_uid : ℕ
  pub st_gid : ℕ
  pub st_rdev : ℕ
  pub st_size : ℕ
  pub st_blksize : ℕ
  pub st_blocks : ℕ
  pub st_atim : Bytes
  pub st_mtim : Bytes
  pub st_ctim : Bytes

pub record Response : Type 0 where
  pub return_code : ℤ
  pub error_number : ℕ

-- `grpc::Status`, as far as the programs tell its codes apart.
pub data Status : Type 0 where
  ok not_found cancelled unavailable : Status

abbrev pub no_meta : Meta
no_meta = record { file_exists = false; timestamp = [] }

abbrev pub no_content : FilepathContent
no_content = record { filepath = []; b = [] }

abbrev pub no_stat : StatContent
no_stat = record {
  return_code = pos 0;
  error_number = 0;
  st_dev = 0;
  st_ino = 0;
  st_mode = 0;
  st_nlink = 0;
  st_uid = 0;
  st_gid = 0;
  st_rdev = 0;
  st_size = 0;
  st_blksize = 0;
  st_blocks = 0;
  st_atim = [];
  st_mtim = [];
  st_ctim = [];
}

abbrev pub no_response : Response
no_response = record { return_code = pos 0; error_number = 0 }
