-- ===== src/Block/Reached.antt =====
-- Stores that block requests reach, and what a later block shows of them.
use theta_rosetta_rpc_adapto.Prelude.{◌≡◌, ap, subst, String, true, some, List, ◌++◌}
use theta_rosetta_rpc_adapto.Prelude.Int.{ℤ}
use theta_rosetta_rpc_adapto.Digits.{Bytes}
use theta_rosetta_rpc_adapto.Go.{ok}
use theta_rosetta_rpc_adapto.Names.{block_status_string}
use theta_rosetta_rpc_adapto.Wire.{Theta}
use theta_rosetta_rpc_adapto.Store.Interface.{Store}
use theta_rosetta_rpc_adapto.StakeService.{Client, ReturnStakeTxs, height_bytes}
use theta_rosetta_rpc_adapto.Transaction.{Decoder, holds_hash}
use theta_rosetta_rpc_adapto.Transaction.Returns.{IsStable}
use theta_rosetta_rpc_adapto.Block.{Block, BlockResult, Tx, returns_of, parse_block}
use theta_rosetta_rpc_adapto.Block.Content.{
  AreComplete, Shows, raws_of, tx_hashes, return_hashes, parse_block-Shows,
}
use theta_rosetta_rpc_adapto.Block.Kept.{After, Held, Answered, parse_block-Answered}

module _ (θ : Theta) (store : Store ReturnStakeTxs) (decode : Decoder) where
  -- Blocks that are answered one after the other, each with what the node then says.
  pub data Reaches : store.State → store.State → Type 0 where
    start : {s : store.State} → Reaches s s
    answer :
        {s s1 s2 : store.State} (client : Client) (result : BlockResult) (b : Block)
        → parse_block θ store decode client (some result) s ≡ ok (some (b, s1))
        → Reaches s1 s2
        → Reaches s s2

  -- A return that is stored under a key stays stored there.
  Reaches-Held :
      (h : String) (k : Bytes) (s s' : store.State)
      → IsStable θ store
      → Held θ store h k s
      → Reaches s s'
      → Held θ store h k s'
  Reaches-Held h k s s' stable held Reaches.start = held
  Reaches-Held h k s s' stable held (Reaches.answer {s1 = s1} client result b e r) =
      Reaches-Held h k s1 s' stable
        (subst (After (Answered θ store decode h k)) e
          (parse_block-Answered θ store decode stable h k client (some result) s held))
        r

  -- A return that is stored for a height is shown there: however many blocks are answered first,
  -- the block of that height, if it has a timestamp and a known status and its entries are complete
  -- and no withdrawals, is answered with its entries and then the returns that are stored for it,
  -- one of them under that return's hash. The store gives back the hashes that were written.
  pub Reaches-Shows :
      (h : String) (s s' : store.State) (client : Client) (b : BlockResult) (time : ℤ)
      (status : String) (shown : List Tx)
      → IsStable θ store
      → Held θ store h (height_bytes b.height) s
      → Reaches s s'
      → b.timestamp ≡ some time
      → block_status_string b.status ≡ ok status
      → AreComplete decode b.txs 0 (raws_of θ store b.raws) shown
      → (rs : ReturnStakeTxs) × (holds_hash h rs ≡ true)
        × Shows θ store status
            (tx_hashes θ store shown ++ return_hashes rs)
            s'
            (parse_block θ store decode client (some b) s')
  Reaches-Shows h s s' client b time status shown stable held r t e c =
      let (rs, there, has) = Reaches-Held h (height_bytes b.height) s s' stable held r in
      (
        rs,
        has,
        subst
            (λ xs.
              Shows θ store status (tx_hashes θ store shown ++ return_hashes xs) s'
                (parse_block θ store decode client (some b) s'))
            (ap returns_of there)
            (parse_block-Shows θ store decode client b time status shown s' t e c),
      )
