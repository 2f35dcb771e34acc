-- ===== src/Client/Stub.antt =====
-- The calls of the service, as the client makes them through `AFS::Stub`. A handler of the client
-- takes them as a parameter; `none` as the result of `write` is a call that never comes back.
use distributed_systems_afsv.Base.{Option, List, Bytes}
use distributed_systems_afsv.Proto.{
  Meta, FilepathContent, MetaContent, StatContent, Response, Status,
}

-- `R` is the state behind the calls. Where a client reads the status of a call, it comes with the
-- answer; where it does not, a call that fails leaves the defaults in the answer.
pub record Stub (R : Type 0) : Type 0 where
  pub ls : Bytes → R → List Bytes
  pub get_content : Bytes → R → List MetaContent × Status
  pub write : List FilepathContent → R → Option (Status × Meta × R)
  pub stat : Bytes → R → StatContent
  pub unlink : Bytes → R → Response × R
  pub rmdir : Bytes → R → Response × R
  pub mkdir : Bytes → R → Response × R
