-- ===== src/Iknp/Calls.antt =====
-- What `send` and `receive` come to, given the results of their loops.
use petace_verse.Common.{
  ℕ, ◌*◌, ◌/◌, ◌%◌, ◌^◌, ◌<◌, List, ok, ◌==◌, length, ◌≡◌, refl, ap, ◌∙◌, arith, eq→==, le→ltb, ltb,
  ap₂, true, false,
}
use petace_verse.Util.Memory.{Block}
use petace_verse.Crypto.{Crypto}
use petace_verse.Net.{Proc, done, recv_data, send_data, recv_block, ◌>>=◌}
use petace_verse.Net.Message.{send_block-eq, recv_block-eq}
use petace_verse.Util.Bytes.{bytes_of_blocks, blocks_of_bytes}
use petace_verse.Iknp.{IknpOtExtSender, IknpOtExtReceiver, send, extend, receive}
use petace_verse.Iknp.Matrix.{
  sender_rows, receiver_rows, transposed_columns, sender_messages, receiver_messages,
}

module _ (c : Crypto) where
  pub send-eq :
      (s : IknpOtExtSender c) (cols : ℕ)
      → s.base_ot_sizes ≡ 128
      → s.ext_ot_sizes ≡ 128 * cols
      → 128 * cols * 16 < 2 ^ 64
      → send c s
        ≡ recv_data
            (128 * cols * 16)
            (λ bytes. extend c s 128 cols (blocks_of_bytes (128 * cols) bytes))
  unfolding send
  send-eq s cols hb he lt =
      let small : ltb 128 s.base_ot_sizes ≡ false = le→ltb 128 s.base_ot_sizes (omega arith) in
      let whole : (s.base_ot_sizes % 128 == 0) ≡ true =
        eq→== (s.base_ot_sizes % 128) 0 (omega arith) in
      let whole' : (s.ext_ot_sizes % 128 == 0) ≡ true =
        eq→== (s.ext_ot_sizes % 128) 0 (omega arith) in
      let width : s.ext_ot_sizes / 128 ≡ cols = omega arith in
      let area : 128 * cols % 2 ^ 64 ≡ 128 * cols = omega arith in
      rw (small, whole, whole', width)
        (ap (λ (n : ℕ). recv_block (n * cols % 2 ^ 64) >>= extend c s n cols) hb
          ∙ ap (λ (p : Proc (List Block)). p >>= extend c s 128 cols)
              (ap recv_block area ∙ recv_block-eq (128 * cols) lt))

  pub extend-eq :
      (s : IknpOtExtSender c) (cols : ℕ) (recv ext : List Block) (ps : List c.Prng)
      (output : List (List Block)) (ms : List (Block × Block))
      → s.ext_ot_sizes ≡ 128 * cols
      → sender_rows c cols s.base_choices recv 128 0 s.prng ≡ ok (ext, ps)
      → transposed_columns 128 cols ext ≡ ok output
      → sender_messages c 128 (128 * cols) s.base_choices output ≡ ok ms
      → extend c s 128 cols recv ≡ done (ms, record s { prng = ps })
  unfolding extend
  extend-eq s cols recv ext ps output ms he rows cs messages =
      let messages' : sender_messages c 128 s.ext_ot_sizes s.base_choices output ≡ ok ms =
        ap (λ (n : ℕ). sender_messages c 128 n s.base_choices output) he ∙ messages in
      rw (rows, cs, messages') refl

  pub receive-eq :
      (r : IknpOtExtReceiver c) (cols : ℕ) (choices t0 sent : List Block)
      (qs : List (c.Prng × c.Prng)) (output : List (List Block)) (mr : List Block)
      → r.base_ot_sizes ≡ 128
      → r.ext_ot_sizes ≡ 128 * cols
      → receiver_rows c cols choices 128 r.prng ≡ ok (t0, sent, qs)
      → length sent ≡ 128 * cols
      → transposed_columns 128 cols t0 ≡ ok output
      → receiver_messages c 128 (128 * cols) output ≡ ok mr
      → 128 * cols * 16 < 2 ^ 64
      → receive c r choices ≡ send_data (bytes_of_blocks sent) (done (mr, record r { prng = qs }))
  unfolding receive
  receive-eq r cols choices t0 sent qs output mr hb he rows size cs ms lt =
      let whole : (r.base_ot_sizes % 128 == 0) ≡ true =
        eq→== (r.base_ot_sizes % 128) 0 (omega arith) in
      let whole' : (r.ext_ot_sizes % 128 == 0) ≡ true =
        eq→== (r.ext_ot_sizes % 128) 0 (omega arith) in
      let width : r.ext_ot_sizes / 128 ≡ cols = omega arith in
      let rows' : receiver_rows c cols choices r.base_ot_sizes r.prng ≡ ok (t0, sent, qs) =
        ap (λ (n : ℕ). receiver_rows c cols choices n r.prng) hb ∙ rows in
      let cs' : transposed_columns r.base_ot_sizes cols t0 ≡ ok output =
        ap (λ (n : ℕ). transposed_columns n cols t0) hb ∙ cs in
      let ms' : receiver_messages c r.base_ot_sizes r.ext_ot_sizes output ≡ ok mr =
        ap₂ (λ (n m : ℕ). receiver_messages c n m output) hb he ∙ ms in
      let small : 128 * cols % 2 ^ 64 ≡ 128 * cols = omega arith in
      let area : r.base_ot_sizes * cols % 2 ^ 64 ≡ 128 * cols =
        ap (λ (n : ℕ). n * cols % 2 ^ 64) hb ∙ small in
      rw (whole, whole', width, rows', cs', ms', area, send_block-eq sent (128 * cols) size lt) refl
