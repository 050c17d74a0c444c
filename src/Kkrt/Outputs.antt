-- ===== src/Kkrt/Outputs.antt =====
-- The receiver's messages, whatever the sender sends, and what `encode` gives.
use petace_verse.Common.{
  ℕ, ◌*◌, ◌/◌, ◌%◌, ◌^◌, List, ◌==◌, not, length, Outcome, base_size, ext_size, arith, replicate,
}
use petace_verse.Common.Holds.{Holds, Holds-then, build-Holds, for_range-Holds}
use petace_verse.Util.Memory.{Block, IsBlock, set_epi64x}
use petace_verse.Crypto.{Crypto, IsCrypto, hash_block-IsBlock}
use petace_verse.Net.{check, lift, send_block}
use petace_verse.Net.Gives.{Gives, Gives-then, lift-Gives}
use petace_verse.Kkrt.{KkrtNcoOtExtSender, KkrtNcoOtExtReceiver, round_up, receive}
use petace_verse.Kkrt.Matrix.{
  chain, encoded_input, receiver_messages, generate_row_pairs, tiles, row_matrix, row_mat, load_2d,
}
use petace_verse.Kkrt.Encode.{encode}
use petace_verse.Outputs.{IsMessages}

module _ (c : Crypto) (w : IsCrypto c) where
  chain-Holds :
      (threshhold i : ℕ) (entry : ℕ → Outcome Block) → Holds IsBlock (chain c threshhold i entry)
  unfolding chain set_epi64x
  chain-Holds threshhold i entry =
      for_range-Holds IsBlock _ threshhold 0 (set_epi64x 0 0)
        (λ j acc. Holds-then IsBlock (entry j) _ λ e. hash_block-IsBlock c w _) (omega arith)

  -- A value that `encode` gives is a block.
  pub encode-Holds : (s : KkrtNcoOtExtSender c) (i : ℕ) (x : Block) → Holds IsBlock (encode c s i x)
  unfolding encode
  encode-Holds s i x =
      Holds-then IsBlock (encoded_input c (s.base_ot_sizes / 128) s.base_choices x) _
        λ enc. chain-Holds (s.base_ot_sizes / 128) i _

  receiver_messages-Holds :
      (n threshhold : ℕ) (rows : List (List Block))
      → Holds (IsMessages n) (receiver_messages c n threshhold rows)
  unfolding receiver_messages
  receiver_messages-Holds n threshhold rows =
      build-Holds IsBlock _ n 0 λ i. chain-Holds threshhold i (load_2d rows i)

  pub receiver-Gives :
      (r : KkrtNcoOtExtReceiver c) (choices : List Block)
      → Gives
          (λ (x : List Block × KkrtNcoOtExtReceiver c). IsMessages (length choices) x.0)
          (receive c r choices)
  unfolding receive
  receiver-Gives r choices =
      let rows = r.base_ot_sizes in
      let ext = round_up (length choices) in
      let cols = ext / 128 in
      let threshhold = rows / 128 in
      Gives-then _ (check (not (rows % 128 == 0)) base_size) _ λ _.
        Gives-then _ (check (not (ext % 128 == 0)) ext_size) _ λ _.
          Gives-then _ (lift (generate_row_pairs c cols rows r.prng)) _ λ t.
            Gives-then _ (lift (tiles cols threshhold t.0 (replicate 128 0))) _ λ squares0.
              Gives-then _ (lift (row_matrix ext threshhold squares0.0)) _ λ row_mat0.
                Gives-then _ (lift (tiles cols threshhold t.1 squares0.1)) _ λ squares1.
                  Gives-then _ (lift (row_matrix ext threshhold squares1.0)) _ λ row_mat1.
                    Gives-then _ (lift (row_mat c ext threshhold row_mat0 row_mat1 choices)) _
                      λ sent. Gives-then _ (send_block sent (ext * threshhold % 2 ^ 64)) _ λ _.
                        lift-Gives (IsMessages (length choices)) _
                          (receiver_messages c (length choices) threshhold row_mat0) _
                          (receiver_messages-Holds (length choices) threshhold row_mat0)
                          λ messages h. h
