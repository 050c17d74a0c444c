-- ===== src/Kkrt/ReceiverSide.antt =====
-- What `receive` computes and sends, from the rows that its generators give.
use petace_verse.Common.{
  ℕ, ◌*◌, ◌≤◌, ◌<◌, ◌+◌, ◌^◌, List, [], ok, length, get_or, All, ◌≡◌, replicate,
}
use petace_verse.Util.Memory.{Block, IsBlock}
use petace_verse.Util.Bytes.{bytes_of_blocks}
use petace_verse.Util.Transpose.Laws.{zeros-IsOutput}
use petace_verse.Crypto.{Crypto, IsCrypto}
use petace_verse.Net.{done, send_data}
use petace_verse.Kkrt.{KkrtNcoOtExtReceiver, round_up, receive}
use petace_verse.Kkrt.Matrix.{generate_row_pairs, chain}
use petace_verse.Kkrt.Squares.{IsRows, turned}
use petace_verse.Kkrt.Wire.{masked, row_mat_lem}
use petace_verse.Kkrt.Chains.{receiver_messages_lem}
use petace_verse.Kkrt.Calls.{receive-eq}

module _ (c : Crypto) where
  pub record ReceiverSide (r : KkrtNcoOtExtReceiver c) (choices : List Block) (threshhold cols : ℕ)
      (t0 t1 : List (List Block)) (after : List (c.Prng × c.Prng)) : Type 0 where
    pub row0 : List (List Block)
    pub row1 : List (List Block)
    pub sent : List Block
    pub messages : List Block
    pub rows0 : IsRows t0 (cols * 128) threshhold row0
    pub rows1 : IsRows t1 (cols * 128) threshhold row1
    pub length_sent : length sent ≡ cols * 128 * threshhold
    pub blocks_sent : All IsBlock sent
    pub cells_sent :
        (i j : ℕ)
        → i < cols * 128
        → j < threshhold
        → get_or sent (i * threshhold + j) 0
          ≡ masked c choices i j (get_or (get_or row0 i []) j 0) (get_or (get_or row1 i []) j 0)
    pub length_messages : length messages ≡ length choices
    pub chained :
        (i : ℕ)
        → i < length choices
        → chain c threshhold i (λ j. ok (get_or (get_or row0 i []) j 0)) ≡ ok (get_or messages i 0)
    pub call :
        receive c r choices
        ≡ send_data
            (bytes_of_blocks sent)
            (done (messages, record r { ext_ot_sizes = cols * 128; prng = after }))

  pub receiver_side :
      (r : KkrtNcoOtExtReceiver c) (choices : List Block) (threshhold cols : ℕ)
      (t0 t1 : List (List Block)) (after : List (c.Prng × c.Prng))
      → IsCrypto c
      → All IsBlock choices
      → r.base_ot_sizes ≡ threshhold * 128
      → round_up (length choices) ≡ cols * 128
      → cols * 128 * threshhold * 16 < 2 ^ 64
      → length choices ≤ cols * 128
      → generate_row_pairs c cols (threshhold * 128) r.prng ≡ ok (t0, t1, after)
      → (length t0 ≡ threshhold * 128) × (length t1 ≡ threshhold * 128)
      → ((x : ℕ)
          → x < threshhold * 128
          → (length (get_or t0 x []) ≡ cols) × (length (get_or t1 x []) ≡ cols))
      → ReceiverSide r choices threshhold cols t0 t1 after
  receiver_side r choices threshhold cols t0 t1 after w blocks hb he fits le gen heights widths =
      let turn0 =
        turned cols threshhold t0 (replicate 128 0) heights.0 (λ x lt. (widths x lt).0)
          zeros-IsOutput in
      let turn1 = turned cols threshhold t1 turn0.1 heights.1 (λ x lt. (widths x lt).1) turn0.4 in
      let sent =
        row_mat_lem c choices turn0.2 turn1.2 t0 t1 (cols * 128) threshhold w blocks turn0.6
          turn1.6 in
      let ms =
        receiver_messages_lem c (length choices) (cols * 128) threshhold t0 turn0.2 turn0.6 le in
      record {
        row0 = turn0.2;
        row1 = turn1.2;
        sent = sent.0;
        messages = ms.0;
        rows0 = turn0.6;
        rows1 = turn1.6;
        length_sent = sent.2;
        blocks_sent = sent.3;
        cells_sent = sent.4;
        length_messages = ms.2;
        chained = ms.3;
        call =
            receive-eq c r choices threshhold cols t0 t1 turn0.2 turn1.2 turn0.0 turn1.0 turn0.1
              turn1.1 after sent.0 ms.0 hb he gen turn0.3 turn0.5 turn1.3 turn1.5 sent.1 sent.2 ms.1
              fits;
      }
