-- ===== src/Start/Restarts.antt =====
-- When the returns of a snapshot are stored.
use theta_rosetta_rpc_adapto.Prelude.{
  ◌≡◌, refl, String, Bool, true, false, Option, none, some, List, [], ◌∷◌, All, Bool-cases, inl,
  inr,
}
use theta_rosetta_rpc_adapto.Go.{ok}
use theta_rosetta_rpc_adapto.Wire.{Theta}
use theta_rosetta_rpc_adapto.Rpc.{Status, get_status}
use theta_rosetta_rpc_adapto.Store.Interface.{Store}
use theta_rosetta_rpc_adapto.StakeService.{Client, ReturnStakeTxs, Outcome}
use theta_rosetta_rpc_adapto.StakeService.Snapshot.{gen_stakes_for_snapshot}
use theta_rosetta_rpc_adapto.Start.{opened, open_and_fill, route, new_theta_router, starts}

-- The node is asked for its status and there is an answer, be it an error.
abbrev pub AnswersStatus : Client → Type 0
AnswersStatus client = (o : Option Status) × (get_status client.status ≡ ok o)

module _ (θ : Theta) (store : Store ReturnStakeTxs) where
  route-opened :
      (accepts : String → Bool) (client : Client) (s : store.State) (o : Option Status)
      → (id : Option String) × (route θ store accepts client (opened θ store s) o
          ≡ ok (id, opened θ store s))
  unfolding route open_and_fill
  route-opened accepts client s none = (none, refl)
  route-opened accepts client s (some status) = elim (Bool-cases (accepts status.chain_id)) [
    | inl e ↦ (some status.chain_id, rw e)
    | inr e ↦ (none, rw e)
  ]

  starts-opened :
      (accepts : String → Bool) (clients : List Client) (s : store.State)
      → All AnswersStatus clients
      → starts θ store accepts clients (opened θ store s) ≡ ok (opened θ store s)
  unfolding starts new_theta_router
  starts-opened accepts [] s h = refl
  starts-opened accepts (client ∷ clients) s ((o, e), h) =
      let (id, r) = route-opened accepts client s o in rw (e, r, starts-opened accepts clients s h)

  -- On a disk without the database's directory, a start whose node answers its status, with a chain
  -- id that is accepted, makes the directory and leaves in the database what `GenStakesForSnapshot`
  -- made of it, failed or not; later starts, however many, leave the database as it is as long as
  -- their nodes answer the call for the status.
  pub starts-eq-first :
      (accepts : String → Bool) (first : Client) (later : List Client) (status : Status)
      (s s' : store.State) (outcome : Outcome (Unit {0}))
      → get_status first.status ≡ ok (some status)
      → accepts status.chain_id ≡ true
      → gen_stakes_for_snapshot θ store first s ≡ ok (outcome, s')
      → All AnswersStatus later
      → starts θ store accepts (first ∷ later) (record { directory = false; contents = s })
        ≡ ok (record { directory = true; contents = s' })
  unfolding starts new_theta_router route open_and_fill
  starts-eq-first accepts first later status s s' outcome e a g h =
      rw (e, a, g, starts-opened accepts later s' h)
