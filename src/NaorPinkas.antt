-- ===== src/NaorPinkas.antt =====
-- base-ot/naor-pinkas-ot: the base transfers, their sender and their receiver.
-- The source of randomness that the constructors create is an argument; the receiver's member
-- `base_choices` is never used and left out.
pub mod Points
pub mod Bytes
pub mod Messages
pub mod Transfer
pub mod Setup
pub mod Schedules
pub mod Outputs
use petace_verse.Common.{ℕ, ◌*◌, List, ◌++◌, map, drop}
use petace_verse.Util.Memory.{Block}
use petace_verse.Crypto.{Crypto}
use petace_verse.Curve.{Curve}
use petace_verse.Net.{Proc, done, lift, send_data, recv_data, ◌>>=◌, ◌>>◌}
use Points.{
  ecc_point_len, create_keys, bytes_of_points, points_of_bytes, sender_messages, sigma_points,
  receiver_messages,
}

pub record NaorPinkasSender (ec : Curve) : Type 0 where
  pub base_ot_sizes : ℕ
  pub prng : ec.Source

pub record NaorPinkasReceiver (ec : Curve) : Type 0 where
  pub base_ot_sizes : ℕ
  pub prng : ec.Source

-- `create_naor_pinkas_sender` and `create_naor_pinkas_receiver`
unfoldable pub naor_pinkas_sender : (ec : Curve) → ℕ → ec.Source → NaorPinkasSender ec
naor_pinkas_sender ec base prng = record { base_ot_sizes = base; prng = prng }

unfoldable pub naor_pinkas_receiver : (ec : Curve) → ℕ → ec.Source → NaorPinkasReceiver ec
naor_pinkas_receiver ec base prng = record { base_ot_sizes = base; prng = prng }

-- One call of `send_data` or `recv_data`.
abbrev sends : List ℕ → Proc (Unit {0})
sends bytes = send_data bytes (done tt)

abbrev receives : ℕ → Proc (List ℕ)
receives n = recv_data n done

module _ (c : Crypto) (ec : Curve) where
  unfoldable pub send : NaorPinkasSender ec → Proc (List (Block × Block) × NaorPinkasSender ec)
  send s = do
    let n = s.base_ot_sizes
    let c_sk = create_keys ec n s.prng
    let c_pk = map ec.create_public_key c_sk.0
    let gr_sk = create_keys ec n c_sk.1
    let gr_pk = map ec.create_public_key gr_sk.0
    sends (bytes_of_points ec c_pk ++ bytes_of_points ec gr_pk)
    buff ← receives (n * ecc_point_len)
    messages ← lift (sender_messages c ec n c_pk gr_sk.0 (points_of_bytes ec n buff))
    done (messages, record s { prng = gr_sk.1 })

  unfoldable pub receive :
      NaorPinkasReceiver ec → List Block → Proc (List Block × NaorPinkasReceiver ec)
  receive r choices = do
    let n = r.base_ot_sizes
    buff ← receives (2 * n * ecc_point_len)
    let c_pk = points_of_bytes ec n buff
    let gr_pk = points_of_bytes ec n (drop (n * ecc_point_len) buff)
    let k_sigma_sk = create_keys ec n r.prng
    k_sigma_pk ← lift (sigma_points ec n choices k_sigma_sk.0 c_pk)
    sends (bytes_of_points ec k_sigma_pk)
    messages ← lift (receiver_messages c ec n choices k_sigma_sk.0 gr_pk)
    done (messages, record r { prng = k_sigma_sk.1 })
