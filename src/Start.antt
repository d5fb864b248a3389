-- ===== src/Start.antt =====
-- `NewThetaRouter` of services/server.go as far as it changes state: the chain id that it learns, the
-- database directory that it opens, and the returns of the snapshot that it stores in a new one.
pub mod Restarts
use theta_rosetta_rpc_adapto.Prelude.{
  String, Bool, true, Option, none, some, List, [], ◌∷◌, if◌then◌else◌,
}
use theta_rosetta_rpc_adapto.Go.{Go, ok, ◌>>=◌}
use theta_rosetta_rpc_adapto.Wire.{Theta}
use theta_rosetta_rpc_adapto.Rpc.{Status, get_status}
use theta_rosetta_rpc_adapto.Store.Interface.{Store}
use theta_rosetta_rpc_adapto.StakeService.{Client, ReturnStakeTxs}
use theta_rosetta_rpc_adapto.StakeService.Snapshot.{gen_stakes_for_snapshot}

module _ (θ : Theta) (store : Store ReturnStakeTxs) where
  -- Whether the directory of the database exists, and what is in the database, if it does, or what a
  -- new one holds.
  pub record Disk : Type 0 where
    pub directory : Bool
    pub contents : store.State

  abbrev pub opened : store.State → Disk
  opened s = record { directory = true; contents = s }

  -- Opening makes the directory; only where there was none the snapshot is asked for, and its error is
  -- dropped.
  unfoldable pub open_and_fill : Client → Disk → Go Disk
  open_and_fill client disk = do
    let fill = gen_stakes_for_snapshot θ store client disk.contents
    if disk.directory then ok (opened disk.contents) else fill >>= (λ filled. ok (opened filled.1))

  -- `accepts` is whether the asserter of the Rosetta SDK can be made for a chain id. A result is the
  -- chain id, or `none` where an error is returned.
  unfoldable pub route : (String → Bool) → Client → Disk → Option Status → Go (Option String × Disk)
  unfolding open_and_fill
  route accepts client disk none = ok (none, disk)
  route accepts client disk (some status) =
      if accepts status.chain_id
      then open_and_fill client disk >>= (λ d. ok (some status.chain_id, d))
      else ok (none, disk)

  unfoldable pub new_theta_router : (String → Bool) → Client → Disk → Go (Option String × Disk)
  unfolding route
  new_theta_router accepts client disk = do
    status ← get_status client.status
    route accepts client disk status

  -- The process started again and again on one disk, each time with what the node then answers.
  unfoldable pub starts : (String → Bool) → List Client → Disk → Go Disk
  unfolding new_theta_router
  starts accepts [] disk = ok disk
  starts accepts (client ∷ clients) disk = do
    first ← new_theta_router accepts client disk
    starts accepts clients first.1
