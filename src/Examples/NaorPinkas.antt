-- ===== src/Examples/NaorPinkas.antt =====
-- Witnesses of the theorems on the base transfers, over the group of two elements.
use mathlib.Core.Bool.{Bool, true, false}
use petace_verse.Common.{
  ◌*◌, ℕ, zero, suc, ◌+◌, ◌-◌, ◌%◌, List, [], ◌∷◌, ◌==◌, replicate, All, ◌≡◌, refl, arith,
}
use petace_verse.Util.Memory.{Block}
use petace_verse.Curve.{Curve, IsCurve}
use petace_verse.NaorPinkas.{
  NaorPinkasSender, NaorPinkasReceiver, naor_pinkas_sender, naor_pinkas_receiver,
}
use petace_verse.NaorPinkas.Transfer.{BaseTransferred, base_session_transfers}
use petace_verse.NaorPinkas.Schedules.{base_session_ends}
use petace_verse.NaorPinkas.{send, receive}
use petace_verse.Net.{done}
use petace_verse.Net.Run.{here, start, idle}
use petace_verse.Net.Schedules.{OnTheWay}
use petace_verse.NaorPinkas.Setup.{base_transfers-Transferred, base_transfers-Encoded}
use petace_verse.Iknp as Iknp
use petace_verse.Iknp.Transfer.{Transferred}
use petace_verse.Kkrt as Kkrt
use petace_verse.Kkrt.Transfer.{Encoded}
use petace_verse.Examples.Toy.{toy, toy-IsCrypto}

abbrev pub sum : Bool → Bool → Bool
sum false q = q
sum true false = true
sum true true = false

abbrev pub times : Bool → Bool → Bool
times p true = p
times p false = false

abbrev pub first_byte : Bool → ℕ
first_byte true = 1
first_byte false = 0

abbrev pub read_byte : List ℕ → Bool
read_byte [] = false
read_byte (zero ∷ bytes) = false
read_byte (suc b ∷ bytes) = true

abbrev pub pair_group : Curve
pair_group = record {
  SecretKey = Bool;
  Point = Bool;
  Source = ℕ;
  create_secret_key = λ n. (n % 3 == 0, n + 1);
  create_public_key = λ k. k;
  encrypt = times;
  invert = λ p. p;
  add = sum;
  point_to_bytes = λ p n. first_byte p ∷ replicate (n - 1) 0;
  point_from_bytes = λ bytes n. read_byte bytes;
}

abbrev pub AnyPoint : Bool → Type 0
AnyPoint p = Unit

sum_comm : (p q : Bool) → sum p q ≡ sum q p
sum_comm false false = refl
sum_comm false true = refl
sum_comm true false = refl
sum_comm true true = refl

sum_assoc : (p q r : Bool) → sum (sum p q) r ≡ sum p (sum q r)
sum_assoc false q r = refl
sum_assoc true false r = refl
sum_assoc true true false = refl
sum_assoc true true true = refl

sum_cancel : (p q : Bool) → sum (sum p q) q ≡ p
sum_cancel false false = refl
sum_cancel false true = refl
sum_cancel true false = refl
sum_cancel true true = refl

times-sum : (p q k : Bool) → times (sum p q) k ≡ sum (times p k) (times q k)
times-sum p q true = refl
times-sum p q false = refl

times_comm : (p q : Bool) → times p q ≡ times q p
times_comm false false = refl
times_comm false true = refl
times_comm true false = refl
times_comm true true = refl

byte_back : (p : Bool) → AnyPoint p → read_byte (first_byte p ∷ replicate 32 0) ≡ p
byte_back false a = refl
byte_back true a = refl

pub pair_group-IsCurve : IsCurve pair_group AnyPoint
pair_group-IsCurve = record {
  add_comm = sum_comm;
  add_assoc = sum_assoc;
  add_cancel = sum_cancel;
  encrypt_add = times-sum;
  encrypt_invert = λ p k. refl;
  encrypt_public = times_comm;
  public_IsEncodable = λ k. tt;
  length_point = λ p. refl;
  point_round_trip = byte_back;
}

pub any_points : (ps : List Bool) → All AnyPoint ps
any_points [] = tt
any_points (p ∷ ps) = (tt, any_points ps)

abbrev base_choices : List Block
base_choices = 0x9234_5678_9abc_def0 ∷ []

abbrev base_sender : NaorPinkasSender pair_group
base_sender = naor_pinkas_sender pair_group 128 5

abbrev base_receiver : NaorPinkasReceiver pair_group
base_receiver = naor_pinkas_receiver pair_group 128 9

transferred : BaseTransferred toy pair_group base_sender base_receiver base_choices
unfolding naor_pinkas_sender naor_pinkas_receiver
transferred =
    base_session_transfers toy pair_group base_sender base_receiver base_choices AnyPoint
      pair_group-IsCurve refl (omega arith) (λ sigma e. any_points sigma)

base_session_transfers_example :
    BaseTransferred toy pair_group base_sender base_receiver base_choices
unfolding naor_pinkas_sender naor_pinkas_receiver
base_session_transfers_example =
    base_session_transfers toy pair_group base_sender base_receiver base_choices AnyPoint
      pair_group-IsCurve refl (omega arith) (λ sigma e. any_points sigma)

abbrev ext_choices : List Block
ext_choices = 0xff00_ff00 ∷ 7 ∷ []

base_transfers-Transferred_example :
    (t : BaseTransferred toy pair_group base_sender base_receiver base_choices) × Transferred toy
      (Iknp.sender_set_base_ots toy (Iknp.iknp_sender toy 128 256) base_choices t.received)
      (Iknp.receiver_set_base_ots toy (Iknp.iknp_receiver toy 128 256) t.sent)
      ext_choices
unfolding naor_pinkas_sender naor_pinkas_receiver
base_transfers-Transferred_example =
    base_transfers-Transferred toy pair_group AnyPoint base_sender base_receiver base_choices
      ext_choices 256 toy-IsCrypto pair_group-IsCurve refl refl (λ sigma e. any_points sigma)
      (omega arith) (omega arith) (omega arith) (omega arith) (omega arith) (omega arith)
      (omega arith)

base_transfers-Encoded_example :
    (t : BaseTransferred toy pair_group base_sender base_receiver base_choices) × Encoded toy
      (Kkrt.sender_set_base_ots toy (Kkrt.kkrt_sender toy 128) base_choices t.received)
      (Kkrt.receiver_set_base_ots toy (Kkrt.kkrt_receiver toy 128) t.sent)
      ext_choices
unfolding naor_pinkas_sender naor_pinkas_receiver
base_transfers-Encoded_example =
    base_transfers-Encoded toy pair_group AnyPoint base_sender base_receiver base_choices
      ext_choices toy-IsCrypto pair_group-IsCurve refl (omega arith) (omega arith)
      (λ sigma e. any_points sigma) (omega arith) (omega arith) (omega arith)

base_session_ends_example :
    OnTheWay 4 0
      (start (send toy pair_group base_sender) (receive toy pair_group base_receiver base_choices))
      (idle
        (0 + 2 * base_sender.base_ot_sizes * 33)
        (0 + base_sender.base_ot_sizes * 33)
        (done (transferred.sent, transferred.sender))
        (done (transferred.received, transferred.receiver)))
unfolding naor_pinkas_sender naor_pinkas_receiver transferred
base_session_ends_example =
    base_session_ends toy pair_group base_sender base_receiver base_choices AnyPoint
      pair_group-IsCurve refl (omega arith) (λ sigma e. any_points sigma) 0
      (start (send toy pair_group base_sender) (receive toy pair_group base_receiver base_choices))
      here
