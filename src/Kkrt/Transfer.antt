-- ===== src/Kkrt/Transfer.antt =====
-- A whole session of the extension: what it starts from, and what it leaves.
use native.Mathlib.Nat.{mul-le-mul_right}
use petace_verse.Util.Transpose.Laws.{zeros-IsOutput}
use petace_verse.Common.{
  replicate, ℕ, ◌+◌, ◌-◌, ◌*◌, ◌/◌, ◌%◌, ◌^◌, ◌≤◌, ◌<◌, bit_and, bit_xor, List, [], ok, ◌==◌,
  length, get_or, All, ◌≡◌, sym, ◌≢◌, refl, ap₂, ◌∙◌, arith, Bool-cases, inl, inr, lt→ltb, subst,
  true, false,
}
use petace_verse.Util.Memory.{Block, IsBlock}
use petace_verse.Crypto.{Crypto, IsCrypto}
use petace_verse.Pairing.{Paired}
use petace_verse.Net.{Proc, done}
use petace_verse.Net.Run.{Steps, idle}
use petace_verse.Net.Message.{block_message}
use petace_verse.Kkrt.{KkrtNcoOtExtSender, KkrtNcoOtExtReceiver, round_up, send, extend, receive}
use petace_verse.Kkrt.Encode.{encode}
use petace_verse.Kkrt.EncodeChoice.{encode-eq}
use petace_verse.Kkrt.Rows.{rows_agree}
use petace_verse.Kkrt.Squares.{turned}
use petace_verse.Kkrt.Masks.{q_rows}
use petace_verse.Kkrt.Chains.{q_matrix_lem}
use petace_verse.Kkrt.Calls.{send-eq, extend-eq}
use petace_verse.Kkrt.ReceiverSide.{receiver_side}

round_up_whole : (n : ℕ) → (n % 128 == 0) ≡ true → round_up n ≡ n
unfolding round_up
round_up_whole n z = rw z refl

pub round_up_part : (n : ℕ) → (n % 128 == 0) ≡ false → round_up n ≡ (n + (128 - n % 128)) % 2 ^ 64
unfolding round_up
round_up_part n z = rw z refl

-- Rounding up gives whole blocks, and where no 64 bits are passed, no fewer transfers, and less than
-- a block more.
pub round_up_lem :
    (n : ℕ) → n + 128 ≤ 2 ^ 64 → (round_up n % 128 ≡ 0) × (n ≤ round_up n) × (round_up n < n + 128)
round_up_lem n h = elim (Bool-cases (n % 128 == 0)) [
  | inl z ↦
      let e : n % 128 ≡ 0 = ground arith in rw (round_up_whole n z) (e, omega arith, omega arith)
  | inr z ↦
      let e : n % 128 ≢ 0 = ground arith in
      rw (round_up_part n z) (omega arith, omega arith, omega arith)
]

-- There are transfers, and 64 bits hold their number, rounded up, and that of the bytes of the matrix that is sent.
abbrev pub IsSized : ℕ → ℕ → Type 0
IsSized base n = (n + 128 ≤ 2 ^ 64) × ((n + 128) * (base / 128) * 16 < 2 ^ 64) × (0 < n)

pub sized_area : (base n : ℕ) → IsSized base n → round_up n / 128 * 128 * (base / 128) * 16 < 2 ^ 64
sized_area base n sized =
    let up = round_up_lem n sized.0 in
    let le : round_up n ≤ n + 128 = omega (arith, up.2) in
    let area = mul-le-mul_right (base / 128) le in
    let whole : round_up n / 128 * 128 ≡ round_up n = omega (arith, up.0) in
    rw whole (omega (arith, area, sized.1))

module _ (c : Crypto) where
  -- Sender and receiver are set up for the same base transfers, a multiple of 128, and their
  -- generators are paired.
  pub record EncodeSynced (s : KkrtNcoOtExtSender c) (r : KkrtNcoOtExtReceiver c) : Type 0 where
    pub same_base : r.base_ot_sizes ≡ s.base_ot_sizes
    pub whole_blocks : s.base_ot_sizes % 128 ≡ 0
    pub has_choices : s.base_ot_sizes / 128 ≤ length s.base_choices
    pub choices_blocks : All IsBlock s.base_choices
    pub enough : s.base_ot_sizes ≤ length s.prng
    pub paired : Paired c s.base_choices 0 s.prng r.prng

  -- A session: the final configuration of a run, with what it means for the parties.
  pub record Encoded (s : KkrtNcoOtExtSender c) (r : KkrtNcoOtExtReceiver c) (choices : List Block)
      : Type 0 where
    pub messages : List Block
    pub sender : KkrtNcoOtExtSender c
    pub receiver : KkrtNcoOtExtReceiver c
    pub run :
        (i j : ℕ)
        → Steps 2 (idle i j (send c s (length choices)) (receive c r choices)) (
            idle i
              (j + round_up (length choices) * (s.base_ot_sizes / 128) * 16)
              (done (tt, sender))
              (done (messages, receiver)))
    pub same_sizes : sender.base_ot_sizes ≡ s.base_ot_sizes
    pub length_messages : length messages ≡ length choices
    pub encodes :
        (i : ℕ)
        → i < length choices
        → encode c sender i (get_or choices i 0) ≡ ok (get_or messages i 0)
    pub synced : EncodeSynced sender receiver
    pub q_height : length sender.q_mat ≡ round_up (length choices)
    pub q_width :
        (i : ℕ)
        → i < round_up (length choices)
        → length (get_or sender.q_mat i []) ≡ s.base_ot_sizes / 128

  session_cols :
      (s : KkrtNcoOtExtSender c) (r : KkrtNcoOtExtReceiver c) (choices : List Block)
      (threshhold cols : ℕ)
      → IsCrypto c
      → 0 < cols
      → EncodeSynced s r
      → s.base_ot_sizes ≡ threshhold * 128
      → round_up (length choices) ≡ cols * 128
      → cols * 128 * threshhold * 16 < 2 ^ 64
      → length choices ≤ cols * 128
      → All IsBlock choices
      → Encoded s r choices
  session_cols s r choices threshhold cols w pos sync hb he fits le blocks =
      let enough : threshhold ≤ length s.base_choices = omega (arith, sync.has_choices) in
      let rows =
        rows_agree c s.base_choices cols (threshhold * 128) 0 s.prng r.prng pos
          (omega (arith, sync.enough)) sync.paired in
      let turn_ext =
        turned cols threshhold rows.ext (replicate 128 0) rows.length_ext
          (λ x lt. (rows.widths x lt).0) zeros-IsOutput in
      let side =
        receiver_side c r choices threshhold cols rows.t0 rows.t1 rows.receiver_after w blocks
          (sync.same_base ∙ hb) he fits le rows.receives (rows.length_t0, rows.length_t1)
          (λ x lt. ((rows.widths x lt).1, (rows.widths x lt).2)) in
      let q =
        q_matrix_lem c (cols * 128) threshhold s.base_choices side.sent rows.ext turn_ext.2
          turn_ext.6 enough side.length_sent in
      let kept =
        q_rows (cols * 128) threshhold s.base_choices rows.ext rows.t0 rows.t1 turn_ext.2 side.row0
          side.row1 turn_ext.6 side.rows0 side.rows1 enough sync.choices_blocks
          (λ x lt. let z : 0 + x ≡ x = omega arith in rw z at (rows.rows x lt)) in
      let sender_after : KkrtNcoOtExtSender c = record s {
        ext_ot_sizes = cols * 128;
        prng = rows.sender_after;
        q_mat = q.0;
      } in
      let receiver_after : KkrtNcoOtExtReceiver c = record r {
        ext_ot_sizes = cols * 128;
        prng = rows.receiver_after;
      } in
      record {
        messages = side.messages;
        sender = sender_after;
        receiver = receiver_after;
        run = λ i j.
            subst
              (λ (n : ℕ). Steps 2 (idle i j (send c s (length choices)) (receive c r choices)) (
                idle i (j + n * 16) (done (tt, sender_after))
                  (done (side.messages, receiver_after))))
              (ap₂ ◌*◌ (sym he) (omega (arith, hb)))
              (subst
                (λ (p : Proc (Unit {0} × KkrtNcoOtExtSender c)).
                  Steps 2 (idle i j (send c s (length choices)) (receive c r choices)) (
                    idle i (j + cols * 128 * threshhold * 16) p
                      (done (side.messages, receiver_after))))
                (extend-eq c s threshhold cols side.sent rows.ext turn_ext.2 q.0 turn_ext.0
                  turn_ext.1 rows.sender_after hb rows.sends turn_ext.3 turn_ext.5 q.1)
                (block_message (send c s (length choices)) (receive c r choices) side.sent
                  (cols * 128 * threshhold) (extend c s (cols * 128)) _ i j
                  (send-eq c s (length choices) threshhold cols hb he fits) side.call
                  side.length_sent side.blocks_sent));
        same_sizes = refl;
        length_messages = side.length_messages;
        encodes = λ i lt.
            let at : i < cols * 128 = omega arith in
            encode-eq c sender_after threshhold (cols * 128) i (get_or choices i 0) side.row0
              side.row1 hb enough q.2 at (q.3 i at).0
              (λ j hj.
                (q.3 i at).1 j hj
                ∙ ap₂ (λ (u v : ℕ). bit_xor u (bit_and v (get_or s.base_choices j 0)))
                    (kept i j at hj)
                    (side.cells_sent i j at hj ∙ rw (lt→ltb i (length choices) lt) refl))
            ∙ side.chained i lt;
        q_height = q.2 ∙ sym he;
        q_width = λ i lt. (q.3 i (omega (arith, he))).0 ∙ omega (arith, hb);
        synced = record {
          same_base = sync.same_base;
          whole_blocks = sync.whole_blocks;
          has_choices = sync.has_choices;
          choices_blocks = sync.choices_blocks;
          enough = omega (arith, rows.length_after, sync.enough);
          paired = rows.paired;
        };
      }

  -- Whenever sender and receiver are set up for the same base transfers, a session for any number
  -- of choices that are blocks, at least one and such that 64 bits hold the sizes, ends with a
  -- result on both sides, `encode` at a choice gives the receiver's message of that transfer, both
  -- objects are set up for another session, and only the receiver sends: one block for each
  -- transfer, rounded up, and each 128 base transfers.
  pub session_encodes :
      (s : KkrtNcoOtExtSender c) (r : KkrtNcoOtExtReceiver c) (choices : List Block)
      → IsCrypto c
      → EncodeSynced s r
      → IsSized s.base_ot_sizes (length choices)
      → All IsBlock choices
      → Encoded s r choices
  session_encodes s r choices w sync sized blocks =
      let up = round_up_lem (length choices) sized.0 in
      session_cols s r choices (s.base_ot_sizes / 128) (round_up (length choices) / 128) w
        (omega (arith, up.0, up.1, sized.2)) sync (omega (arith, sync.whole_blocks))
        (omega (arith, up.0)) (sized_area s.base_ot_sizes (length choices) sized)
        (omega (arith, up.0, up.1)) blocks
