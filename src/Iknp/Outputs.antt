-- ===== src/Iknp/Outputs.antt =====
-- The messages of both parties of the extension, whatever the other party sends.
use petace_verse.Common.{
  ℕ, ◌*◌, ◌/◌, ◌%◌, ◌^◌, List, ◌==◌, not, ltb, iknp_base_size, base_size, ext_size, load,
}
use petace_verse.Common.Holds.{Holds, Holds-then, build-Holds}
use petace_verse.Util.Memory.{Block, IsBlock}
use petace_verse.Crypto.{Crypto, IsCrypto, hash_block-IsBlock}
use petace_verse.Net.{check, lift, recv_block, send_block}
use petace_verse.Net.Gives.{Gives, Gives-then, lift-Gives}
use petace_verse.Iknp.{IknpOtExtSender, IknpOtExtReceiver, extend, send, receive}
use petace_verse.Iknp.Matrix.{
  cell, sender_messages, receiver_messages, sender_rows, transposed_columns, receiver_rows,
}
use petace_verse.Outputs.{IsPairs, IsMessages}

module _ (c : Crypto) (w : IsCrypto c) where
  sender_messages-Holds :
      (rows ext : ℕ) (base_choices : List Block) (output : List (List Block))
      → Holds (IsPairs ext) (sender_messages c rows ext base_choices output)
  unfolding sender_messages
  sender_messages-Holds rows ext base_choices output =
      build-Holds (λ (m : Block × Block). IsBlock m.0 × IsBlock m.1) _ ext 0
        λ i. Holds-then _ (cell output rows i) _ λ q.
          Holds-then _ (load base_choices 0) _
            λ front. (hash_block-IsBlock c w _, hash_block-IsBlock c w _)

  receiver_messages-Holds :
      (rows ext : ℕ) (output : List (List Block))
      → Holds (IsMessages ext) (receiver_messages c rows ext output)
  unfolding receiver_messages
  receiver_messages-Holds rows ext output =
      build-Holds IsBlock _ ext 0
        λ i. Holds-then _ (cell output rows i) _ λ t. hash_block-IsBlock c w _

  pub sender-Gives :
      (s : IknpOtExtSender c)
      → Gives
          (λ (r : List (Block × Block) × IknpOtExtSender c). IsPairs s.ext_ot_sizes r.0)
          (send c s)
  unfolding send extend
  sender-Gives s =
      let rows = s.base_ot_sizes in
      let cols = s.ext_ot_sizes / 128 in
      Gives-then _ (check (ltb 128 rows) iknp_base_size) _ λ _.
        Gives-then _ (check (not (rows % 128 == 0)) base_size) _ λ _.
          Gives-then _ (check (not (s.ext_ot_sizes % 128 == 0)) ext_size) _ λ _.
            Gives-then _ (recv_block (rows * cols % 2 ^ 64)) _ λ recv_matrix.
              Gives-then _ (lift (sender_rows c cols s.base_choices recv_matrix rows 0 s.prng)) _
                λ ext. Gives-then _ (lift (transposed_columns rows cols ext.0)) _ λ output.
                  lift-Gives (IsPairs s.ext_ot_sizes) _
                    (sender_messages c rows s.ext_ot_sizes s.base_choices output) _
                    (sender_messages-Holds rows s.ext_ot_sizes s.base_choices output)
                    λ messages h. h

  pub receiver-Gives :
      (r : IknpOtExtReceiver c) (choices : List Block)
      → Gives
          (λ (x : List Block × IknpOtExtReceiver c). IsMessages r.ext_ot_sizes x.0)
          (receive c r choices)
  unfolding receive
  receiver-Gives r choices =
      let rows = r.base_ot_sizes in
      let cols = r.ext_ot_sizes / 128 in
      Gives-then _ (check (not (rows % 128 == 0)) base_size) _ λ _.
        Gives-then _ (check (not (r.ext_ot_sizes % 128 == 0)) ext_size) _ λ _.
          Gives-then _ (lift (receiver_rows c cols choices rows r.prng)) _ λ ext.
            Gives-then _ (send_block ext.1 (rows * cols % 2 ^ 64)) _ λ _.
              Gives-then _ (lift (transposed_columns rows cols ext.0)) _ λ output.
                lift-Gives (IsMessages r.ext_ot_sizes) _
                  (receiver_messages c rows r.ext_ot_sizes output) _
                  (receiver_messages-Holds rows r.ext_ot_sizes output) λ messages h. h
