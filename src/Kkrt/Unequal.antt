-- ===== src/Kkrt/Unequal.antt =====
-- A session in which the sender asks for more transfers than the receiver has choices.
use petace_verse.Common.{ℕ, ◌+◌, ◌*◌, ◌/◌, ◌<◌, List, length, All, ◌≡◌, ap, ◌∙◌, arith}
use petace_verse.Util.Memory.{Block, IsBlock}
use petace_verse.Util.Bytes.{bytes_of_blocks, length-bytes_of_blocks}
use petace_verse.Util.Transpose.Load.{index-lt}
use petace_verse.Crypto.{Crypto, IsCrypto}
use petace_verse.Net.Waits.{LeavesWaiting, one_message-LeavesWaiting}
use petace_verse.Kkrt.{KkrtNcoOtExtSender, KkrtNcoOtExtReceiver, round_up, send, receive}
use petace_verse.Kkrt.Rows.{rows_agree}
use petace_verse.Kkrt.Calls.{send-eq}
use petace_verse.Kkrt.ReceiverSide.{receiver_side}
use petace_verse.Kkrt.Transfer.{EncodeSynced, IsSized, round_up_lem, sized_area}

module _ (c : Crypto) where
  -- When sender and receiver are set up for the same base transfers, at least one block of them,
  -- the choices are blocks and at least one, the sizes of both calls fit 64 bits, and the sender
  -- asks for more blocks of transfers than the receiver's choices take, then the receiver returns
  -- after one step, and the sender waits for ever.
  pub unequal_sizes-LeavesWaiting :
      (s : KkrtNcoOtExtSender c) (r : KkrtNcoOtExtReceiver c) (n : ℕ) (choices : List Block)
      → IsCrypto c
      → EncodeSynced c s r
      → 0 < s.base_ot_sizes
      → IsSized s.base_ot_sizes n
      → IsSized s.base_ot_sizes (length choices)
      → All IsBlock choices
      → round_up (length choices) < round_up n
      → LeavesWaiting (send c s n) (receive c r choices)
  unequal_sizes-LeavesWaiting s r n choices w sync some asked sized blocks more =
      let threshhold : ℕ = s.base_ot_sizes / 128 in
      let cols : ℕ = round_up (length choices) / 128 in
      let wide : ℕ = round_up n / 128 in
      let up = round_up_lem (length choices) sized.0 in
      let up' = round_up_lem n asked.0 in
      let whole : s.base_ot_sizes ≡ threshhold * 128 = omega (arith, sync.whole_blocks) in
      let rows =
        rows_agree c s.base_choices cols (threshhold * 128) 0 s.prng r.prng
          (omega (arith, up.0, up.1, sized.2)) (omega (arith, sync.enough)) sync.paired in
      let side =
        receiver_side c r choices threshhold cols rows.t0 rows.t1 rows.receiver_after w blocks
          (sync.same_base ∙ whole) (omega (arith, up.0))
          (sized_area s.base_ot_sizes (length choices) sized) (omega (arith, up.0, up.1))
          rows.receives (rows.length_t0, rows.length_t1)
          (λ x lt. ((rows.widths x lt).1, (rows.widths x lt).2)) in
      let sender =
        send-eq c s n threshhold wide whole (omega (arith, up'.0))
          (sized_area s.base_ot_sizes n asked) in
      let fewer : cols * 128 * threshhold + 0 < wide * 128 * threshhold =
        index-lt (cols * 128) 0 (wide * 128) threshhold (omega (arith, up.0, up'.0, more))
          (omega (arith, sync.whole_blocks, some)) in
      let size : length (bytes_of_blocks side.sent) ≡ cols * 128 * threshhold * 16 =
        length-bytes_of_blocks side.sent ∙ ap (λ (t : ℕ). t * 16) side.length_sent in
      one_message-LeavesWaiting _ _ _ _ (bytes_of_blocks side.sent) _ sender side.call
        (omega (arith, size, fewer))
