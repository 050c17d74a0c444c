-- ===== src/Kkrt.antt =====
-- n-choose-one/kkrt: the 1-out-of-n OT extension, its sender with `encode`, and its receiver. An
-- exception leaves the object as it was. `base_choices` of the receiver is never used and left
-- out.
pub mod Matrix
pub mod Encode
pub mod Encodes
pub mod EncodeChoice
pub mod Rows
pub mod Squares
pub mod Masks
pub mod Wire
pub mod Chains
pub mod Calls
pub mod ReceiverSide
pub mod Transfer
pub mod Setup
pub mod Schedules
pub mod Outputs
pub mod Sizes
pub mod Unequal
pub mod Again
use petace_verse.Common.{
  ℕ, ◌+◌, ◌-◌, ◌*◌, ◌/◌, ◌%◌, ◌^◌, bit_xor, List, [], ◌++◌, map, base_size, ext_size, ◌==◌, not,
  if◌then◌else◌, length, load, replicate, Outcome, ok,
}
use petace_verse.Util.Memory.{Block}
use petace_verse.Crypto.{Crypto, seeded}
use petace_verse.Net.{Proc, check, done, lift, ◌>>=◌, ◌>>◌, send_block, recv_block}
use Matrix.{
  load_2d, tiles, row_matrix, generate_rows, generate_row_pairs, q_matrix, row_mat, chain,
  receiver_messages, encoded_input,
}

pub record KkrtNcoOtExtSender (c : Crypto) : Type 0 where
  pub base_ot_sizes : ℕ
  pub ext_ot_sizes : ℕ
  pub base_choices : List Block
  pub prng : List c.Prng
  pub q_mat : List (List Block)

pub record KkrtNcoOtExtReceiver (c : Crypto) : Type 0 where
  pub base_ot_sizes : ℕ
  pub ext_ot_sizes : ℕ
  pub prng : List (c.Prng × c.Prng)

-- The number of transfers, rounded up to whole blocks, in 64 bits.
unfoldable pub round_up : ℕ → ℕ
round_up n = if not (n % 128 == 0) then (n + (128 - n % 128)) % 2 ^ 64 else n

module _ (c : Crypto) where
  unfoldable pub kkrt_sender : ℕ → KkrtNcoOtExtSender c
  kkrt_sender base = record {
    base_ot_sizes = base;
    ext_ot_sizes = 0;
    base_choices = [];
    prng = [];
    q_mat = [];
  }

  unfoldable pub kkrt_receiver : ℕ → KkrtNcoOtExtReceiver c
  kkrt_receiver base = record { base_ot_sizes = base; ext_ot_sizes = 0; prng = [] }

  -- New generators go behind the old ones, new choices before the old ones.
  unfoldable pub sender_set_base_ots :
      KkrtNcoOtExtSender c → List Block → List Block → KkrtNcoOtExtSender c
  sender_set_base_ots s choices base_recv_ots = record s {
    base_choices = choices ++ s.base_choices;
    prng = s.prng ++ map (seeded c) base_recv_ots;
  }

  unfoldable pub receiver_set_base_ots :
      KkrtNcoOtExtReceiver c → List (Block × Block) → KkrtNcoOtExtReceiver c
  receiver_set_base_ots r base_send_ots = record r {
    prng = r.prng ++ map (λ (m : Block × Block). (seeded c m.0, seeded c m.1)) base_send_ots;
  }

  -- The sender from the received matrix on.
  unfoldable pub extend :
      KkrtNcoOtExtSender c → ℕ → List Block → Proc (Unit {0} × KkrtNcoOtExtSender c)
  extend s ext recv_matrix = do
    let rows = s.base_ot_sizes
    let cols = ext / 128
    let threshhold = rows / 128
    ext_matrix ← lift (generate_rows c cols rows s.prng)
    squares ← lift (tiles cols threshhold ext_matrix.0 (replicate 128 0))
    turned ← lift (row_matrix ext threshhold squares.0)
    q ← lift (q_matrix c ext threshhold s.base_choices recv_matrix turned)
    done (tt, record s { ext_ot_sizes = ext; prng = ext_matrix.1; q_mat = q })

  unfoldable pub send : KkrtNcoOtExtSender c → ℕ → Proc (Unit {0} × KkrtNcoOtExtSender c)
  send s ext_ot_sizes = do
    check (not (s.base_ot_sizes % 128 == 0)) base_size
    let ext = round_up ext_ot_sizes
    check (not (ext % 128 == 0)) ext_size
    let rows = s.base_ot_sizes
    let cols = ext / 128
    recv_matrix ← recv_block (rows * cols % 2 ^ 64)
    extend s ext recv_matrix

  -- The receiver's two matrices of rows, through one output vector, and what it sends.
  unfoldable pub receive :
      KkrtNcoOtExtReceiver c → List Block → Proc (List Block × KkrtNcoOtExtReceiver c)
  receive r choices = do
    check (not (r.base_ot_sizes % 128 == 0)) base_size
    let ext = round_up (length choices)
    check (not (ext % 128 == 0)) ext_size
    let rows = r.base_ot_sizes
    let cols = ext / 128
    let threshhold = rows / 128
    t ← lift (generate_row_pairs c cols rows r.prng)
    squares0 ← lift (tiles cols threshhold t.0 (replicate 128 0))
    row_mat0 ← lift (row_matrix ext threshhold squares0.0)
    squares1 ← lift (tiles cols threshhold t.1 squares0.1)
    row_mat1 ← lift (row_matrix ext threshhold squares1.0)
    sent ← lift (row_mat c ext threshhold row_mat0 row_mat1 choices)
    send_block sent (ext * threshhold % 2 ^ 64)
    messages ← lift (receiver_messages c (length choices) threshhold row_mat0)
    done (messages, record r { ext_ot_sizes = ext; prng = t.2 })
