-- ===== src/Iknp/Unequal.antt =====
-- A session in which the receiver extends to fewer transfers than the sender.
use petace_verse.Common.{ℕ, ◌*◌, ◌/◌, ◌%◌, ◌≤◌, ◌<◌, ◌^◌, List, length, All, ◌≡◌, arith}
use petace_verse.Util.Memory.{Block, IsBlock}
use petace_verse.Util.Bytes.{bytes_of_blocks, length-bytes_of_blocks}
use petace_verse.Crypto.{Crypto, IsCrypto}
use petace_verse.Net.Waits.{LeavesWaiting, one_message-LeavesWaiting}
use petace_verse.Iknp.{IknpOtExtSender, IknpOtExtReceiver, send, receive}
use petace_verse.Iknp.Rows.{rows_agree}
use petace_verse.Iknp.Columns.{transposed_columns_lem}
use petace_verse.Iknp.Messages.{receiver_messages_lem}
use petace_verse.Iknp.Calls.{send-eq, receive-eq}
use petace_verse.Iknp.Transfer.{Synced}

module _ (c : Crypto) where
  -- When sender and receiver are set up for the same transfers, except that the receiver was built
  -- for a smaller number of extended ones, a positive multiple of 128, and its choices are blocks
  -- and cover that number, then the receiver returns after one step, and the sender waits for ever.
  pub short_receiver-LeavesWaiting :
      (s : IknpOtExtSender c) (r : IknpOtExtReceiver c) (few : ℕ) (choices : List Block)
      → IsCrypto c
      → Synced c s r
      → 0 < few
      → few % 128 ≡ 0
      → few < s.ext_ot_sizes
      → few ≤ 128 * length choices
      → All IsBlock choices
      → LeavesWaiting (send c s) (receive c (record r { ext_ot_sizes = few }) choices)
  short_receiver-LeavesWaiting s r few choices w sync pos whole less hc blocks =
      let cols : ℕ = few / 128 in
      let wide : ℕ = s.ext_ot_sizes / 128 in
      let fits : 128 * wide * 16 < 2 ^ 64 = omega (arith, sync.fits, sync.whole_blocks) in
      let fits' : 128 * cols * 16 < 2 ^ 64 = omega (arith, sync.fits) in
      let he : s.ext_ot_sizes ≡ 128 * wide = omega (arith, sync.whole_blocks) in
      let rows =
        rows_agree c s.base_choices choices cols 128 0 s.prng r.prng w (omega arith) (omega arith)
          blocks (omega (arith, sync.has_choices)) sync.enough sync.paired in
      let colT = transposed_columns_lem cols rows.t0 rows.length_t0 in
      let mr = receiver_messages_lem c cols rows.t0 colT.0 colT.2 colT.3 in
      one_message-LeavesWaiting _ _ _ _ (bytes_of_blocks rows.sent) _
        (send-eq c s wide sync.sender_base he fits)
        (receive-eq c (record r { ext_ot_sizes = few }) cols choices rows.t0 rows.sent rows.after
          colT.0 mr.0 sync.receiver_base (omega arith) rows.received rows.length_sent colT.1 mr.1
          fits')
        (omega (arith, length-bytes_of_blocks rows.sent, rows.length_sent))
