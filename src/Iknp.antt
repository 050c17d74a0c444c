-- ===== src/Iknp.antt =====
-- two-choose-one/iknp: the 1-out-of-2 OT extension, its sender and its receiver.
-- An exception leaves the object as it was; the result of a normal return is the messages and the
-- object after the call. `base_choices` of the receiver is never used and left out.
pub mod Matrix
pub mod Row
pub mod SenderRow
pub mod Rows
pub mod Columns
pub mod Messages
pub mod Calls
pub mod Transfer
pub mod Setup
pub mod Schedules
pub mod Outputs
pub mod Sizes
pub mod Wide
pub mod Unequal
pub mod Again
use petace_verse.Common.{
  ℕ, ◌+◌, ◌*◌, ◌/◌, ◌%◌, ◌^◌, List, [], ◌++◌, map, iknp_base_size, base_size, ext_size, ltb, ◌==◌,
  not, if◌then◌else◌,
}
use petace_verse.Util.Memory.{Block}
use petace_verse.Crypto.{Crypto, seeded}
use petace_verse.Net.{Proc, check, done, lift, ◌>>=◌, ◌>>◌, send_block, recv_block}
use Matrix.{sender_rows, receiver_rows, transposed_columns, sender_messages, receiver_messages}

pub record IknpOtExtSender (c : Crypto) : Type 0 where
  pub base_ot_sizes : ℕ
  pub ext_ot_sizes : ℕ
  pub base_choices : List Block
  pub prng : List c.Prng

pub record IknpOtExtReceiver (c : Crypto) : Type 0 where
  pub base_ot_sizes : ℕ
  pub ext_ot_sizes : ℕ
  pub prng : List (c.Prng × c.Prng)

module _ (c : Crypto) where
  -- The constructors, as `create_iknp_ext_sender` and `create_iknp_ext_receiver` call them.
  unfoldable pub iknp_sender : ℕ → ℕ → IknpOtExtSender c
  iknp_sender base ext = record {
    base_ot_sizes = base;
    ext_ot_sizes = ext;
    base_choices = [];
    prng = [];
  }

  unfoldable pub iknp_receiver : ℕ → ℕ → IknpOtExtReceiver c
  iknp_receiver base ext = record { base_ot_sizes = base; ext_ot_sizes = ext; prng = [] }

  -- New generators go behind the old ones, new choices before the old ones.
  unfoldable pub sender_set_base_ots :
      IknpOtExtSender c → List Block → List Block → IknpOtExtSender c
  sender_set_base_ots s choices base_recv_ots = record s {
    base_choices = choices ++ s.base_choices;
    prng = s.prng ++ map (seeded c) base_recv_ots;
  }

  unfoldable pub receiver_set_base_ots :
      IknpOtExtReceiver c → List (Block × Block) → IknpOtExtReceiver c
  receiver_set_base_ots r base_send_ots = record r {
    prng = r.prng ++ map (λ (m : Block × Block). (seeded c m.0, seeded c m.1)) base_send_ots;
  }

  -- The sender from the received matrix on.
  unfoldable pub extend :
      IknpOtExtSender c → ℕ → ℕ → List Block → Proc (List (Block × Block) × IknpOtExtSender c)
  extend s rows cols recv_matrix = do
    ext ← lift (sender_rows c cols s.base_choices recv_matrix rows 0 s.prng)
    output ← lift (transposed_columns rows cols ext.0)
    messages ← lift (sender_messages c rows s.ext_ot_sizes s.base_choices output)
    done (messages, record s { prng = ext.1 })

  unfoldable pub send : IknpOtExtSender c → Proc (List (Block × Block) × IknpOtExtSender c)
  send s = do
    check (ltb 128 s.base_ot_sizes) iknp_base_size
    check (not (s.base_ot_sizes % 128 == 0)) base_size
    check (not (s.ext_ot_sizes % 128 == 0)) ext_size
    let rows = s.base_ot_sizes
    let cols = s.ext_ot_sizes / 128
    recv_matrix ← recv_block (rows * cols % 2 ^ 64)
    extend s rows cols recv_matrix

  unfoldable pub receive :
      IknpOtExtReceiver c → List Block → Proc (List Block × IknpOtExtReceiver c)
  receive r choices = do
    check (not (r.base_ot_sizes % 128 == 0)) base_size
    check (not (r.ext_ot_sizes % 128 == 0)) ext_size
    let rows = r.base_ot_sizes
    let cols = r.ext_ot_sizes / 128
    ext ← lift (receiver_rows c cols choices rows r.prng)
    send_block ext.1 (rows * cols % 2 ^ 64)
    output ← lift (transposed_columns rows cols ext.0)
    messages ← lift (receiver_messages c rows r.ext_ot_sizes output)
    done (messages, record r { prng = ext.2 })
