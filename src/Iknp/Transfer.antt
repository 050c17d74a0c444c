-- ===== src/Iknp/Transfer.antt =====
-- A whole session of the extension: what it starts from, and what it leaves.
use petace_verse.Common.{
  ℕ, ◌+◌, ◌*◌, ◌/◌, ◌%◌, ◌^◌, ◌≤◌, ◌<◌, bit_xor, List, [], ◌==◌, if◌then◌else◌, length, get_or, All,
  ◌≡◌, refl, sym, ap, ◌∙◌, arith, subst,
}
use petace_verse.Util.Memory.{Block, IsBlock, bit_at}
use petace_verse.Crypto.{Crypto, IsCrypto}
use petace_verse.Net.{Proc, done}
use petace_verse.Net.Run.{Steps, idle}
use petace_verse.Net.Message.{block_message}
use petace_verse.Iknp.{IknpOtExtSender, IknpOtExtReceiver, send, extend, receive}
use petace_verse.Iknp.Rows.{rows_agree}
use petace_verse.Pairing.{Paired, chosen}
use petace_verse.Iknp.Columns.{transposed_columns_lem, pad, pads_agree}
use petace_verse.Iknp.Messages.{sender_messages_lem, receiver_messages_lem, pick}
use petace_verse.Iknp.Calls.{send-eq, extend-eq, receive-eq}

module _ (c : Crypto) where
  -- Sender and receiver are set up for the same 128 base transfers and the same number of
  -- extended ones, at least one, whose blocks have fewer than 2^64 bytes, and their generators are paired.
  pub record Synced (s : IknpOtExtSender c) (r : IknpOtExtReceiver c) : Type 0 where
    pub sender_base : s.base_ot_sizes ≡ 128
    pub receiver_base : r.base_ot_sizes ≡ 128
    pub same_ext : r.ext_ot_sizes ≡ s.ext_ot_sizes
    pub fits : s.ext_ot_sizes * 16 < 2 ^ 64
    pub some : 0 < s.ext_ot_sizes
    pub whole_blocks : s.ext_ot_sizes % 128 ≡ 0
    pub has_choices : 0 < length s.base_choices
    pub choices_block : IsBlock (get_or s.base_choices 0 0)
    pub enough : 128 ≤ length s.prng
    pub paired : Paired c s.base_choices 0 s.prng r.prng

  -- A session: the final configuration of a run, with what it means for the parties.
  pub record Transferred (s : IknpOtExtSender c) (r : IknpOtExtReceiver c) (choices : List Block)
      : Type 0 where
    pub sent : List (Block × Block)
    pub received : List Block
    pub sender : IknpOtExtSender c
    pub receiver : IknpOtExtReceiver c
    pub run :
        (i j : ℕ)
        → Steps 2
            (idle i j (send c s) (receive c r choices))
            (idle i (j + s.ext_ot_sizes * 16) (done (sent, sender)) (done (received, receiver)))
    pub same_sizes : sender.ext_ot_sizes ≡ s.ext_ot_sizes
    pub length_sent : length sent ≡ s.ext_ot_sizes
    pub length_received : length received ≡ s.ext_ot_sizes
    pub picks : (i : ℕ) → i < s.ext_ot_sizes → get_or received i 0 ≡ chosen choices sent i
    pub synced : Synced sender receiver

  transfer_cols :
      (s : IknpOtExtSender c) (r : IknpOtExtReceiver c) (choices : List Block) (cols : ℕ)
      → IsCrypto c
      → Synced s r
      → s.ext_ot_sizes ≡ 128 * cols
      → cols ≤ length choices
      → All IsBlock choices
      → Transferred s r choices
  transfer_cols s r choices cols w sync he hc blocks =
      let fits : 128 * cols * 16 < 2 ^ 64 = omega (arith, sync.fits) in
      let rows =
        rows_agree c s.base_choices choices cols 128 0 s.prng r.prng w (omega (arith, sync.some)) hc
          blocks (omega (arith, sync.has_choices)) sync.enough sync.paired in
      let sends =
        rows.sends rows.sent (omega (arith, rows.length_sent)) (λ k _.
          let z : 0 * cols + k ≡ k = omega arith in ap (λ (t : ℕ). get_or rows.sent t 0) z) in
      let colT = transposed_columns_lem cols rows.t0 rows.length_t0 in
      let colE = transposed_columns_lem cols sends.0 sends.5 in
      let ms =
        sender_messages_lem c cols sends.0 s.base_choices colE.0 colE.2 colE.3 sync.has_choices in
      let mr = receiver_messages_lem c cols rows.t0 colT.0 colT.2 colT.3 in
      record {
        sent = ms.0;
        received = mr.0;
        sender = record s { prng = sends.1 };
        receiver = record r { prng = rows.after };
        run = λ i j.
            subst
              (λ (n : ℕ). Steps 2 (idle i j (send c s) (receive c r choices)) (
                idle i (j + n * 16) (done (ms.0, record s { prng = sends.1 }))
                  (done (mr.0, record r { prng = rows.after }))))
              (sym he)
              (subst
                (λ (p : Proc (List (Block × Block) × IknpOtExtSender c)).
                  Steps 2 (idle i j (send c s) (receive c r choices))
                    (idle i (j + 128 * cols * 16) p (done (mr.0, record r { prng = rows.after }))))
                (extend-eq c s cols rows.sent sends.0 sends.1 colE.0 ms.0 he sends.2 colE.1 ms.1)
                (block_message (send c s) (receive c r choices) rows.sent (128 * cols)
                  (extend c s 128 cols) _ i j (send-eq c s cols sync.sender_base he fits)
                  (receive-eq c r cols choices rows.t0 rows.sent rows.after colT.0 mr.0
                    sync.receiver_base (sync.same_ext ∙ he) rows.received rows.length_sent colT.1
                    mr.1 fits)
                  rows.length_sent rows.blocks_sent));
        same_sizes = refl;
        length_sent = omega (arith, ms.2);
        length_received = omega (arith, mr.2);
        picks = λ i lt.
            let k : ℕ = i / 128 in
            let agree =
              pads_agree cols k sends.0 rows.t0 choices s.base_choices (get_or colE.0 k [])
                (get_or colT.0 k []) (colE.3 k (omega arith)) (colT.3 k (omega arith))
                sync.choices_block
                (λ y py.
                  let z : 0 + y ≡ y = omega arith in
                  subst
                    (λ (t : ℕ). get_or sends.0 (y * cols + k) 0 ≡ (
                      if bit_at s.base_choices t == 0
                      then get_or rows.t0 (y * cols + k) 0
                      else bit_xor (get_or rows.t0 (y * cols + k) 0) (get_or choices k 0)))
                    z (sends.6 y k py (omega arith)))
                (i % 128) (omega arith) in
            mr.3 i (omega arith)
            ∙ pick c (bit_at choices i) (pad colE.0 i) (pad colT.0 i) (get_or s.base_choices 0 0) i
                (get_or ms.0 i (0, 0)) agree (ms.3 i (omega arith));
        synced = record {
          sender_base = sync.sender_base;
          receiver_base = sync.receiver_base;
          same_ext = sync.same_ext;
          fits = sync.fits;
          some = sync.some;
          whole_blocks = sync.whole_blocks;
          has_choices = sync.has_choices;
          choices_block = sync.choices_block;
          enough = omega (arith, sends.4, sync.enough);
          paired = sends.3;
        };
      }

  -- Whenever sender and receiver are set up for the same transfers, and the choices are blocks and
  -- at least as many bits, a session ends with a result on both sides, the receiver's message of
  -- every transfer is the sender's message at the choice bit, both objects are set up for another
  -- session of the same size, and only the receiver sends: 16 bytes for each transfer, in one
  -- message.
  pub session_transfers :
      (s : IknpOtExtSender c) (r : IknpOtExtReceiver c) (choices : List Block)
      → IsCrypto c
      → Synced s r
      → s.ext_ot_sizes ≤ 128 * length choices
      → All IsBlock choices
      → Transferred s r choices
  session_transfers s r choices w sync hc blocks =
      let whole = sync.whole_blocks in
      transfer_cols s r choices (s.ext_ot_sizes / 128) w sync (omega arith) (omega arith) blocks
