-- ===== src/Kkrt/Calls.antt =====
-- What `send` and `receive` come to, given the results of their loops.
use native.Mathlib.Nat.{mul_comm, mul_assoc}
use petace_verse.Common.{
  ℕ, ◌*◌, ◌/◌, ◌%◌, ◌^◌, ◌<◌, List, ok, ◌==◌, length, ◌≡◌, refl, sym, ap, ◌∙◌, arith, eq→==, true,
  replicate,
}
use petace_verse.Util.Memory.{Block}
use petace_verse.Util.Bytes.{bytes_of_blocks, blocks_of_bytes}
use petace_verse.Crypto.{Crypto}
use petace_verse.Net.{done, recv_data, send_data}
use petace_verse.Net.Message.{send_block-eq, recv_block-eq}
use petace_verse.Kkrt.{KkrtNcoOtExtSender, KkrtNcoOtExtReceiver, round_up, send, extend, receive}
use petace_verse.Kkrt.Matrix.{
  tiles, row_matrix, generate_rows, generate_row_pairs, q_matrix, row_mat, receiver_messages,
}

module _ (c : Crypto) where
  pub send-eq :
      (s : KkrtNcoOtExtSender c) (n threshhold cols : ℕ)
      → s.base_ot_sizes ≡ threshhold * 128
      → round_up n ≡ cols * 128
      → cols * 128 * threshhold * 16 < 2 ^ 64
      → send c s n
        ≡ recv_data
            (cols * 128 * threshhold * 16)
            (λ bytes. extend c s (cols * 128) (blocks_of_bytes (cols * 128 * threshhold) bytes))
  unfolding send
  send-eq s n threshhold cols hb he lt =
      let whole : (s.base_ot_sizes % 128 == 0) ≡ true =
        eq→== (s.base_ot_sizes % 128) 0 (omega arith) in
      let whole' : (cols * 128 % 128 == 0) ≡ true = eq→== (cols * 128 % 128) 0 (omega arith) in
      let width : cols * 128 / 128 ≡ cols = omega arith in
      let small : cols * 128 * threshhold % 2 ^ 64 ≡ cols * 128 * threshhold = omega arith in
      let area : s.base_ot_sizes * cols % 2 ^ 64 ≡ cols * 128 * threshhold =
        ap (λ (t : ℕ). t % 2 ^ 64)
          (mul_comm s.base_ot_sizes cols
            ∙ ap (λ (t : ℕ). cols * t) (hb ∙ mul_comm threshhold 128)
            ∙ sym (mul_assoc cols 128 threshhold))
        ∙ small in
      rw (he, whole, whole', width, area, recv_block-eq (cols * 128 * threshhold) lt) refl

  pub extend-eq :
      (s : KkrtNcoOtExtSender c) (threshhold cols : ℕ) (recv : List Block)
      (ext out q : List (List Block)) (squares : List (List (List Block))) (last : List Block)
      (ps : List c.Prng)
      → s.base_ot_sizes ≡ threshhold * 128
      → generate_rows c cols (threshhold * 128) s.prng ≡ ok (ext, ps)
      → tiles cols threshhold ext (replicate 128 0) ≡ ok (squares, last)
      → row_matrix (cols * 128) threshhold squares ≡ ok out
      → q_matrix c (cols * 128) threshhold s.base_choices recv out ≡ ok q
      → extend c s (cols * 128) recv
        ≡ done (tt, record s { ext_ot_sizes = cols * 128; prng = ps; q_mat = q })
  unfolding extend
  extend-eq s threshhold cols recv ext out q squares last ps hb gen ts rs qs =
      let width : cols * 128 / 128 ≡ cols = omega arith in
      let height : s.base_ot_sizes / 128 ≡ threshhold = omega arith in
      let gen' : generate_rows c cols s.base_ot_sizes s.prng ≡ ok (ext, ps) =
        ap (λ (n : ℕ). generate_rows c cols n s.prng) hb ∙ gen in
      rw (width, height, gen', ts, rs, qs) refl

  pub receive-eq :
      (r : KkrtNcoOtExtReceiver c) (choices : List Block) (threshhold cols : ℕ)
      (t0 t1 row0 row1 : List (List Block)) (squares0 squares1 : List (List (List Block)))
      (last0 last1 : List Block) (qs : List (c.Prng × c.Prng)) (sent ms : List Block)
      → r.base_ot_sizes ≡ threshhold * 128
      → round_up (length choices) ≡ cols * 128
      → generate_row_pairs c cols (threshhold * 128) r.prng ≡ ok (t0, t1, qs)
      → tiles cols threshhold t0 (replicate 128 0) ≡ ok (squares0, last0)
      → row_matrix (cols * 128) threshhold squares0 ≡ ok row0
      → tiles cols threshhold t1 last0 ≡ ok (squares1, last1)
      → row_matrix (cols * 128) threshhold squares1 ≡ ok row1
      → row_mat c (cols * 128) threshhold row0 row1 choices ≡ ok sent
      → length sent ≡ cols * 128 * threshhold
      → receiver_messages c (length choices) threshhold row0 ≡ ok ms
      → cols * 128 * threshhold * 16 < 2 ^ 64
      → receive c r choices
        ≡ send_data
            (bytes_of_blocks sent)
            (done (ms, record r { ext_ot_sizes = cols * 128; prng = qs }))
  unfolding receive
  receive-eq r choices threshhold cols t0 t1 row0 row1 squares0 squares1 last0 last1 qs sent ms hb
        he gen ts0 rs0 ts1 rs1 sends size msgs lt =
      let whole : (r.base_ot_sizes % 128 == 0) ≡ true =
        eq→== (r.base_ot_sizes % 128) 0 (omega arith) in
      let whole' : (cols * 128 % 128 == 0) ≡ true = eq→== (cols * 128 % 128) 0 (omega arith) in
      let width : cols * 128 / 128 ≡ cols = omega arith in
      let height : r.base_ot_sizes / 128 ≡ threshhold = omega arith in
      let gen' : generate_row_pairs c cols r.base_ot_sizes r.prng ≡ ok (t0, t1, qs) =
        ap (λ (n : ℕ). generate_row_pairs c cols n r.prng) hb ∙ gen in
      let small : cols * 128 * threshhold % 2 ^ 64 ≡ cols * 128 * threshhold = omega arith in
      rw
        (
          he,
          whole,
          whole',
          width,
          height,
          gen',
          ts0,
          rs0,
          ts1,
          rs1,
          sends,
          small,
          send_block-eq sent (cols * 128 * threshhold) size lt,
          msgs,
        )
        refl
