-- ===== src/Indexing/Availability.antt =====
-- Which errors of GetBlockRewards count as rewards that are not available yet.
use pauli.Common.{ℕ, ◌≡◌, refl, true, ◌++◌, arith}
use pauli.Text.{Text, text, contains, format_uint}
use pauli.Text.Laws.{contains-append_left, contains-append_right}
use pauli.Exec.{Error, wrap, error_text, ok, err}
use pauli.Storage.{World, at}
use pauli.Beacon.{BeaconBlockHeader, BlockRewardsData, Fetch}
use pauli.Beacon.Client.{get_block_rewards, block_rewards_path}
use pauli.Indexing.{rewards_state_not_yet_available}
use pauli.Indexing.Blocks.{BlockIndexer, index_block_at_slot}
use pauli.Indexing.Blocks.Outcome.{index_block-unavailable}

-- A context that has the digits 404 in it makes any error look like a missing state.
context-unavailable :
    (context : Text) (e : Error)
    → contains context (text "404") ≡ true
    → rewards_state_not_yet_available (wrap context e) ≡ true
unfolding rewards_state_not_yet_available error_text
context-unavailable context e h =
    ground (arith, h, contains-append_left context (text "404") (text ": " ++ error_text e))

module _ (escape : Text → Text) (get : Text → Fetch BlockRewardsData) (idx : BlockIndexer)
    (client : idx.client.get_block_rewards ≡ get_block_rewards escape get) where
  -- At a slot that has 404 in its decimals and whose header is fetched, every failure to get the
  -- block's rewards, whatever its cause, ends the indexing of the slot without an error and with
  -- the tables as they were: the client puts the slot into the text of the error, and the text is
  -- searched for 404.
  pub index_block-masked :
      (slot m n : ℕ) (w : World) (header : BeaconBlockHeader) (e : Error)
      → contains (format_uint slot) (text "404") ≡ true
      → idx.client.get_block_header (format_uint slot) w.calls ≡ (ok header, m)
      → get (block_rewards_path escape (format_uint slot)) m ≡ (err e, n)
      → index_block_at_slot idx slot w ≡ (ok tt, at n w.db)
  unfolding get_block_rewards
  index_block-masked slot m n w header e digits h failed =
      index_block-unavailable idx slot w header
        (wrap (text "failed to get block rewards for " ++ format_uint slot) e) m n h
        (rw client (rw failed refl))
        (context-unavailable (text "failed to get block rewards for " ++ format_uint slot) e (
          contains-append_right (text "failed to get block rewards for ") (text "404")
            (format_uint slot) digits))
